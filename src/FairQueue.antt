-- ===== src/FairQueue.antt =====
-- serving_platform/scheduling/fair_queue.py: deficit round robin over the tenants' queues. A lock makes
-- each method one step; the clock's reading is an argument. A priority score
-- `priority + (now - queued_at) / aging` is compared without the division, as
-- `priority * aging + (now - queued_at)`.
pub mod Pop
mod Tests
use mathlib.Core.Option
use gpu_aware_llm_serving_pl.Common.{
  ℕ, suc, zero, ◌+◌, ◌-◌, ◌*◌, ◌≡◌, Bool, true, false, not, ◌&&◌, ◌||◌, Option, none, some, List,
  [], ◌∷◌, ◌++◌, ltb, leb, ◌==◌, if◌then◌else◌, length, keep, any, mem, sum_of, Result, ok, raise,
}
use gpu_aware_llm_serving_pl.Common.Dict.{Dict, lookup, insert, share, total, values}
use gpu_aware_llm_serving_pl.Domain.{
  RequestRecord, RequestState, TenantLimits, DomainError, queued, admitted, cancelled, transition,
  terminal, estimated_tokens,
}

pub data QueueError : Type 0 where
  not_configured wrong_state already_queued invalid_transition key_error : QueueError

pub record FairQueue : Type 0 where
  pub tenants : Dict TenantLimits
  pub base_quantum_tokens : ℕ
  pub priority_aging_seconds : ℕ
  pub queues : Dict (List RequestRecord)
  pub deficits : Dict ℕ
  pub active : List ℕ

-- `{tenant_id: value for tenant_id in self.tenants}`
unfoldable pub for_tenants {ℓ} : {V : Type ℓ} → V → Dict TenantLimits → Dict V
for_tenants v [] = []
for_tenants v ((k, t) ∷ d) = (k, v) ∷ for_tenants v d

unfoldable pub init_queue : Dict TenantLimits → ℕ → ℕ → Result DomainError FairQueue
init_queue tenants quantum aging =
    if (quantum == 0) || (aging == 0)
    then raise DomainError.value_error
    else ok (record {
      tenants = tenants;
      base_quantum_tokens = quantum;
      priority_aging_seconds = aging;
      queues = for_tenants [] tenants;
      deficits = for_tenants 0 tenants;
      active = [];
    })

-- The append to the tenant's queue, and to the active tenants if it is not among them.
unfoldable pub append_request : FairQueue → List RequestRecord → RequestRecord → FairQueue
append_request q queue r = record q {
  queues = insert r.tenant_id (queue ++ r ∷ []) q.queues;
  active = if mem r.tenant_id q.active then q.active else q.active ++ r.tenant_id ∷ [];
}

-- The tests on a request's state: an admitted request is moved to the queued state.
unfoldable pub enter :
    FairQueue → List RequestRecord → RequestRecord → ℕ → FairQueue × Result QueueError RequestRecord
enter q queue r now = elim r.status [
  | queued ↦ (append_request q queue r, ok r)
  | admitted ↦ elim (transition r queued now) [
    | raise e ↦ (q, raise invalid_transition)
    | ok r' ↦ (append_request q queue r', ok r')
  ]
  | _ ↦ (q, raise wrong_state)
]

abbrev pub is_entering : RequestState → Bool
is_entering queued = true
is_entering admitted = true
is_entering _ = false

-- The new state with the request as it was queued: the caller holds the same object.
unfoldable pub enqueue : FairQueue → RequestRecord → ℕ → FairQueue × Result QueueError RequestRecord
enqueue q r now = elim (lookup r.tenant_id q.queues) [
  | none ↦ (q, raise not_configured)
  | some queue ↦
      if not (is_entering r.status)
      then (q, raise wrong_state)
      else if any (λ s. s.request_id == r.request_id) queue
      then (q, raise already_queued)
      else enter q queue r now
]

-- The time at which a request was queued, 0 if it is not recorded.
-- A request that waits has this timestamp, since `enqueue` takes it in the state QUEUED or transitions it to that, and it
-- is not later than the clock's reading.
abbrev pub queued_at : RequestRecord → ℕ
queued_at r = share (λ t. t) (r.transition_timestamps queued)

abbrev pub score : ℕ → ℕ → RequestRecord → ℕ
score aging now r = r.priority * aging + (now - queued_at r)

-- Whether the key of `r` is greater than that of `s`: by score, then by the earlier creation.
unfoldable pub is_better : ℕ → ℕ → RequestRecord → RequestRecord → Bool
is_better aging now r s =
    ltb (score aging now s) (score aging now r)
    || ((score aging now s == score aging now r) && ltb r.created_at s.created_at)

-- `max(queue, key=...)`: the first one of the greatest key.
unfoldable pub best : ℕ → ℕ → RequestRecord → List RequestRecord → RequestRecord
best aging now r [] = r
best aging now r (s ∷ rest) = best aging now (if is_better aging now s r then s else r) rest

-- `queue.remove(request)`: identifiers are unique in a queue.
unfoldable pub remove : ℕ → List RequestRecord → List RequestRecord
remove i [] = []
remove i (r ∷ rs) = if r.request_id == i then rs else r ∷ remove i rs

-- The request of that identifier.
unfoldable pub find : ℕ → List RequestRecord → Option RequestRecord
find i [] = none
find i (r ∷ rs) = if r.request_id == i then some r else find i rs

abbrev pub or_empty : Option (List RequestRecord) → List RequestRecord
or_empty none = []
or_empty (some rs) = rs

abbrev pub get : ℕ → Dict ℕ → ℕ
get k d = share (λ n. n) (lookup k d)

abbrev pub weight : FairQueue → ℕ → ℕ
weight q t = share (λ l. l.scheduling_weight) (lookup t q.tenants)

abbrev pub queue_of : FairQueue → ℕ → List RequestRecord
queue_of q t = or_empty (lookup t q.queues)

-- The tenant's queue without the requests that ended.
abbrev pub live : FairQueue → ℕ → List RequestRecord
live q t = keep (λ r. not (terminal r)) (queue_of q t)

-- The tenant's deficit, a quantum richer.
abbrev pub credit : FairQueue → ℕ → ℕ
credit q t = get t q.deficits + q.base_quantum_tokens * weight q t

-- The rest of a visit once a request is chosen: it is served if the deficit pays for it.
unfoldable pub serve :
    FairQueue → ℕ → List RequestRecord → RequestRecord → FairQueue × Option RequestRecord
serve q t queue r =
    if leb (estimated_tokens r) (credit q t)
    then (
      record q {
        queues = insert t (remove r.request_id queue) q.queues;
        deficits = insert t (credit q t - estimated_tokens r) q.deficits;
        active = if length (remove r.request_id queue) == 0 then q.active else q.active ++ t ∷ [];
      },
      some r,
    )
    else (
      record q {
        queues = insert t queue q.queues;
        deficits = insert t (credit q t) q.deficits;
        active = q.active ++ t ∷ [];
      },
      none,
    )

-- One turn of the loop of `pop`, for a tenant that was just taken off the active ones.
unfoldable pub visit : FairQueue → ℕ → ℕ → List RequestRecord → FairQueue × Option RequestRecord
unfolding serve
visit q t now [] =
    (record q { queues = insert t [] q.queues; deficits = insert t 0 q.deficits }, none)
visit q t now (r ∷ rs) = serve q t (r ∷ rs) (best q.priority_aging_seconds now r rs)

-- The loop returns a request that a visit found, and goes on otherwise.
abbrev pub return_or :
    (FairQueue → FairQueue × Option RequestRecord)
    → FairQueue × Option RequestRecord
    → FairQueue × Option RequestRecord
return_or next (q, none) = next q
return_or next (q, some r) = (q, some r)

unfoldable pub pop_visits : ℕ → FairQueue → ℕ → FairQueue × Option RequestRecord
pop_visits zero q now = (q, none)
pop_visits (suc n) q now = elim q.active [
  | [] ↦ (q, none)
  | t ∷ rest ↦
      return_or (λ q'. pop_visits n q' now) (visit (record q { active = rest }) t now (live q t))
]

unfoldable pub pop : FairQueue → ℕ → FairQueue × Option RequestRecord
unfolding pop_visits
pop q now = pop_visits (length q.active) q now

-- The first queue, in the order of the tenants, that holds the request.
unfoldable pub cancel_in :
    ℕ
    → ℕ
    → Dict (List RequestRecord)
    → Option (Dict (List RequestRecord) × Result DomainError RequestRecord)
cancel_in i now [] = none
cancel_in i now ((t, queue) ∷ d) =
    let rest = Option.map (λ e. ((t, queue) ∷ e.0, e.1)) (cancel_in i now d) in
    elim (find i queue) [
      | some r ↦ some ((t, remove i queue) ∷ d, transition r cancelled now)
      | none ↦ rest
    ]

-- A request that is found leaves its queue before its transition is tried.
unfoldable pub cancel : FairQueue → ℕ → ℕ → FairQueue × Result DomainError Bool
unfolding cancel_in
cancel q i now = elim (cancel_in i now q.queues) [
  | none ↦ (q, ok false)
  | some (queues, raise e) ↦ (record q { queues = queues }, raise e)
  | some (queues, ok _) ↦ (record q { queues = queues }, ok true)
]

-- The number of requests in the queue of a tenant, or in all queues.
unfoldable pub depth : FairQueue → Option ℕ → Result QueueError ℕ
depth q none = ok (total length q.queues)
depth q (some t) = elim (lookup t q.queues) [ none ↦ raise key_error | some rs ↦ ok (length rs) ]
