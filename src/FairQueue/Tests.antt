-- ===== src/FairQueue/Tests.antt =====
-- The fair queue with two tenants.
use gpu_aware_llm_serving_pl.Common.{ℕ, ◌+◌, ◌≡◌, ◌≤◌, refl, true, some, [], ◌∷◌, ok, All}
use gpu_aware_llm_serving_pl.Common.Dict.{lookup, insert, erase, total}
use gpu_aware_llm_serving_pl.Domain.{RequestRecord, queued, transition, is_terminal, is_allowed}
use gpu_aware_llm_serving_pl.Fixtures.{request, tenant}
use gpu_aware_llm_serving_pl.FairQueue.{
  FairQueue, for_tenants, init_queue, append_request, enter, enqueue, is_better, best, find, remove,
  serve, visit, pop_visits, pop, cancel_in, cancel, get, credit, score,
}
use gpu_aware_llm_serving_pl.FairQueue.Pop.{waiting, popped, pop-waiting, visit_served, holds_id}

program : Unit {0}
unfolding lookup insert erase total transition is_terminal is_allowed for_tenants init_queue
    append_request enter enqueue is_better best find remove serve visit pop_visits pop cancel_in
    cancel
program = tt

abbrev waiting_request : ℕ → ℕ → ℕ → RequestRecord
waiting_request i t at = record (request i) {
  tenant_id = t;
  status = queued;
  transition_timestamps = λ s. some at;
}

-- Tenant 1 has two requests of 10 tokens, tenant 2 one; the quantum pays for half of one.
abbrev queue : FairQueue
queue = record {
  tenants = (1, tenant 1) ∷ (2, tenant 2) ∷ [];
  base_quantum_tokens = 5;
  priority_aging_seconds = 1;
  queues =
      (1, waiting_request 7 1 20 ∷ waiting_request 8 1 15 ∷ [])
      ∷ (2, waiting_request 9 2 20 ∷ [])
      ∷ [];
  deficits = (1, 0) ∷ (2, 5) ∷ [];
  active = 1 ∷ 2 ∷ [];
}

-- Tenant 1 cannot pay yet, tenant 2 can.
first_pop : (pop queue 30).1 ≡ some (waiting_request 9 2 20)
unfolding program
first_pop = refl

-- Then the request of tenant 1 that waited longest.
second_pop : (pop (pop queue 30).0 30).1 ≡ some (waiting_request 8 1 15)
unfolding program
second_pop = refl

cancelled_request : (cancel queue 8 30).1 ≡ ok true
unfolding program
cancelled_request = refl

pop-waiting_example : waiting 9 (pop queue 30).0 + popped 9 (pop queue 30).1 ≡ waiting 9 queue
pop-waiting_example = pop-waiting 9 30 queue

visit_served_example :
    let v = visit queue 2 30 (waiting_request 9 2 20 ∷ []) in
    (holds_id 9 (waiting_request 9 2 20 ∷ []) ≡ true)
    × All (λ s. score 1 30 s ≤ score 1 30 (waiting_request 9 2 20)) (waiting_request 9 2 20 ∷ [])
    × (10 ≤ credit queue 2)
    × (get 2 v.0.deficits + 10 ≡ credit queue 2)
unfolding program
visit_served_example =
    visit_served queue 2 30 (waiting_request 9 2 20 ∷ []) (waiting_request 9 2 20) refl
