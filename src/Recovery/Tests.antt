-- ===== src/Recovery/Tests.antt =====
-- One request of a lost worker, before and after its execution began.
use gpu_aware_llm_serving_pl.Common.{ℕ, ◌≡◌, refl, some, [], ◌∷◌, raise}
use gpu_aware_llm_serving_pl.Common.Dict.{lookup, insert}
use gpu_aware_llm_serving_pl.Common.Sort.{sorted, insort}
use gpu_aware_llm_serving_pl.Domain.{
  prefill, stamp, queued, RequestRecord, assigned, running, transition, is_allowed, is_terminal,
}
use gpu_aware_llm_serving_pl.FairQueue.{wrong_state, FairQueue, enqueue, enter, append_request}
use gpu_aware_llm_serving_pl.Fixtures.{request, tenant}
use gpu_aware_llm_serving_pl.Recovery.{
  queue_error, Store, create, save, is_begun, end_request, return_to_queue, retry, recover_one,
  recover_all, Clock, recover_failed_worker, detached,
}
use gpu_aware_llm_serving_pl.Recovery.Retries.{IsRetryable, recover_one-IsRetryable}

program : Unit {0}
unfolding lookup insert sorted insort transition is_allowed is_terminal enqueue enter append_request
    create save is_begun end_request return_to_queue retry recover_one recover_all
    recover_failed_worker
program = tt

abbrev queue : FairQueue
queue = record {
  tenants = (1, tenant 1) ∷ [];
  base_quantum_tokens = 10;
  priority_aging_seconds = 10;
  queues = (1, []) ∷ [];
  deficits = (1, 0) ∷ [];
  active = [];
}

-- All clocks read the same.
abbrev at : ℕ → Clock
at n = record { first = n; second = n; transition_at = n; failed_at = n; enqueue_at = n }

abbrev waiting : RequestRecord
waiting = record (request 1) { status = assigned; assigned_worker_id = some 3; attempt_count = 1 }

abbrev begun : RequestRecord
begun = record (request 2) { status = running; assigned_worker_id = some 3; attempt_count = 1 }

abbrev store : Store
store = (1, waiting) ∷ (2, begun) ∷ []

one_each : (recover_failed_worker (some queue) store 3 2 (λ i. at 50)).0.number_requeued ≡ 1
unfolding program
one_each = refl

one_lost : (recover_failed_worker (some queue) store 3 2 (λ i. at 50)).0.number_failed ≡ 1
unfolding program
one_lost = refl

abbrev again : RequestRecord
again = detached (record waiting {
  status = queued;
  transition_timestamps = stamp waiting.transition_timestamps queued 50;
})

recover_one-IsRetryable_example : IsRetryable (some queue) 3 2 (at 50) waiting again
unfolding program
recover_one-IsRetryable_example =
    recover_one-IsRetryable (some queue) 3 2 (at 50) waiting again refl

-- A request in prefill stops the recovery, and the one after it is left as it was.
abbrev in_prefill : RequestRecord
in_prefill = record (request 1) { status = prefill; assigned_worker_id = some 3; attempt_count = 1 }

stopped :
    (recover_failed_worker (some queue) ((1, in_prefill) ∷ (2, begun) ∷ []) 3 2 (λ i. at 50)).1
    ≡ raise (queue_error wrong_state)
unfolding program
stopped = refl

left_alone :
    lookup 2
      (recover_failed_worker
        (some queue)
        ((1, in_prefill) ∷ (2, begun) ∷ [])
        3
        2
        (λ i. at 50)).0.store
    ≡ some begun
unfolding program
left_alone = refl
