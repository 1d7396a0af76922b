-- ===== src/Recovery.antt =====
-- Recovery of the requests of a lost worker: `recover_failed_worker` of apps/control_plane/service.py over the store
-- of serving_platform/request_state/in_memory.py. The readings of the clocks during the turn
-- of a request are arguments, by its identifier.
pub mod Retries
mod Tests
use gpu_aware_llm_serving_pl.Common.{
  ℕ, ◌+◌, ◌≡◌, Bool, true, false, not, ◌&&◌, ◌||◌, Option, none, some, List, [], ◌∷◌, ◌++◌, leb,
  ◌==◌, if◌then◌else◌, Result, ok, raise,
}
use gpu_aware_llm_serving_pl.Common.Dict.{Dict, lookup, insert, has, is_some, values}
use gpu_aware_llm_serving_pl.Common.Sort.{sorted}
use gpu_aware_llm_serving_pl.Domain.{
  RequestRecord, RequestState, running, streaming, assigned, queued, failed, timed_out, transition,
  terminal, DomainError, RetryReason, worker_lost_after_execution_started,
  request_payload_unavailable_after_restart, deadline_exhausted, retry_budget_exhausted,
  assigned_worker_heartbeat_expired, global_retry_queue_unavailable,
}
use gpu_aware_llm_serving_pl.FairQueue.{FairQueue, QueueError, enqueue}

abbrev pub Store : Type 0
Store = Dict RequestRecord

pub data RecoveryError : Type 0 where
  value_error key_error : RecoveryError
  domain_error : DomainError → RecoveryError
  queue_error : QueueError → RecoveryError

unfoldable pub create : Store → RequestRecord → Result RecoveryError Store
create d r = if has r.request_id d then raise value_error else ok (insert r.request_id r d)

unfoldable pub save : Store → RequestRecord → Result RecoveryError Store
save d r = if has r.request_id d then ok (insert r.request_id r d) else raise key_error

abbrev pub list_requests : Store → List RequestRecord
list_requests d = sorted (λ r. r.request_id) (values d)

-- The readings in one turn of the loop: of the scheduler's clock, twice, of the one of the transitions,
-- also where a second one follows, and of the queue's.
pub record Clock : Type 0 where
  pub first : ℕ
  pub second : ℕ
  pub transition_at : ℕ
  pub failed_at : ℕ
  pub enqueue_at : ℕ

pub data Fate : Type 0 where
  untouched lost requeued : Fate

abbrev pub is_assigned_to : ℕ → Option ℕ → Bool
is_assigned_to w none = false
is_assigned_to w (some v) = v == w

abbrev pub is_executing : RequestState → Bool
is_executing running = true
is_executing streaming = true
is_executing _ = false

-- Whether the worker began to execute the request.
unfoldable pub is_begun : RequestRecord → Bool
is_begun r =
    is_executing r.status
    || is_some (r.transition_timestamps running)
    || is_some (r.transition_timestamps streaming)

abbrev pub noted : RetryReason → RequestRecord → RequestRecord
noted reason r = record r { retry_reasons = r.retry_reasons ++ reason ∷ [] }

abbrev pub ended :
    RetryReason → Result DomainError RequestRecord → Result RecoveryError (RequestRecord × Fate)
ended reason (raise e) = raise (domain_error e)
ended reason (ok s) = ok (noted reason s, lost)

-- A request that ends, with a reason.
unfoldable pub end_request :
    RequestState → RetryReason → ℕ → RequestRecord → Result RecoveryError (RequestRecord × Fate)
end_request target reason now r = ended reason (transition r target now)

abbrev pub enqueued :
    FairQueue × Result QueueError RequestRecord
    → Option FairQueue × Result RecoveryError (RequestRecord × Fate)
enqueued (q, raise e) = (some q, raise (queue_error e))
enqueued (q, ok s) = (some q, ok (s, requeued))

unfoldable pub return_to_queue :
    Option FairQueue
    → Clock
    → RequestRecord
    → Option FairQueue × Result RecoveryError (RequestRecord × Fate)
unfolding end_request
return_to_queue none clock r =
    (none, end_request failed global_retry_queue_unavailable clock.failed_at r)
return_to_queue (some q) clock r = enqueued (enqueue q r clock.enqueue_at)

abbrev pub is_assigned : RequestState → Bool
is_assigned assigned = true
is_assigned _ = false

abbrev pub detached : RequestRecord → RequestRecord
detached r = noted assigned_worker_heartbeat_expired (record r { assigned_worker_id = none })

unfoldable pub retry :
    Option FairQueue
    → Clock
    → RequestRecord
    → Option FairQueue × Result RecoveryError (RequestRecord × Fate)
unfolding return_to_queue
retry queue clock r =
    elim (if is_assigned r.status then transition r queued clock.transition_at else ok r) [
      | raise e ↦ (queue, raise (domain_error e))
      | ok s ↦ return_to_queue queue clock (detached s)
    ]

-- One turn of the loop over the requests.
unfoldable pub recover_one :
    Option FairQueue
    → ℕ
    → ℕ
    → Clock
    → RequestRecord
    → Option FairQueue × Result RecoveryError (RequestRecord × Fate)
unfolding is_begun end_request retry
recover_one queue w max_attempts clock r =
    if not (is_assigned_to w r.assigned_worker_id) || terminal r
    then (queue, ok (r, untouched))
    else if is_begun r
    then (queue, end_request failed worker_lost_after_execution_started clock.transition_at r)
    else if not r.payload_available
    then (queue, end_request failed request_payload_unavailable_after_restart clock.transition_at r)
    else if leb max_attempts r.attempt_count || leb r.deadline clock.first
    then (
      queue,
      if leb r.deadline clock.second
          then end_request timed_out deadline_exhausted clock.transition_at r
          else end_request failed retry_budget_exhausted clock.transition_at r,
    )
    else retry queue clock r

pub record Recovered : Type 0 where
  pub queue : Option FairQueue
  pub store : Store
  pub number_requeued : ℕ
  pub number_failed : ℕ
  pub number_untouched : ℕ

abbrev pub counted : Fate → Recovered → Recovered
counted untouched c = record c { number_untouched = c.number_untouched + 1 }
counted lost c = record c { number_failed = c.number_failed + 1 }
counted requeued c = record c { number_requeued = c.number_requeued + 1 }

-- A request that is not touched is not saved either.
abbrev pub kept : Fate → RequestRecord → Recovered → Recovered
kept untouched r c = c
kept _ r c = record c { store = insert r.request_id r c.store }

-- The loop; what it has done when a transition or the queue raises stays done.
unfoldable pub recover_all :
    ℕ
    → ℕ
    → (ℕ → Clock)
    → List RequestRecord
    → Recovered
    → Recovered × Result RecoveryError (Unit {0})
unfolding recover_one
recover_all w max_attempts clock [] c = (c, ok tt)
recover_all w max_attempts clock (r ∷ rs) c =
    let (queue, answer) = recover_one c.queue w max_attempts (clock r.request_id) r in
    elim answer [
      | raise e ↦ (record c { queue = queue }, raise e)
      | ok (s, fate) ↦
          recover_all w max_attempts clock rs
            (counted fate (kept fate s (record c { queue = queue })))
    ]

unfoldable pub recover_failed_worker :
    Option FairQueue → Store → ℕ → ℕ → (ℕ → Clock) → Recovered × Result RecoveryError (Unit {0})
unfolding recover_all
recover_failed_worker queue store w max_attempts clock =
    let start : Recovered = record {
      queue = queue;
      store = store;
      number_requeued = 0;
      number_failed = 0;
      number_untouched = 0;
    } in
    if max_attempts == 0
    then (start, raise value_error)
    else recover_all w max_attempts clock (list_requests store) start
