-- ===== src/Scheduler/Tests.antt =====
-- One worker and a policy that chooses it.
use gpu_aware_llm_serving_pl.Common.{ℕ, ◌≡◌, refl, none, some, List, [], ◌∷◌, Result, ok, raise}
use gpu_aware_llm_serving_pl.Common.Dict.{lookup, insert, erase}
use gpu_aware_llm_serving_pl.Common.Sort.{sorted, insort}
use gpu_aware_llm_serving_pl.Domain.{
  RequestRecord, RequestState, WorkerState, transition, is_allowed,
}
use gpu_aware_llm_serving_pl.Fixtures.{request, worker}
use gpu_aware_llm_serving_pl.Reservations.{
  apply_reservations, effective_workers, needed_memory, place, place_selected, select_and_reserve,
}
use gpu_aware_llm_serving_pl.Scheduler.{
  Scheduler, deadline_exceeded, select_worker, assign, release_assignment,
}
use gpu_aware_llm_serving_pl.Scheduler.Assignments.{Assigned, assign-Assigned}

program : Unit {0}
unfolding lookup insert erase sorted insort transition is_allowed apply_reservations
    effective_workers needed_memory place place_selected select_and_reserve select_worker assign
    release_assignment
program = tt

abbrev scheduler : Scheduler
scheduler = record {
  registry = record {
    heartbeat_timeout_seconds = 30;
    suspect_after_seconds = 15;
    workers = (3, worker) ∷ [];
  };
  reservations = some [];
  models = none;
}

abbrev policy : RequestRecord → List WorkerState → Result ℕ ℕ
policy r [] = raise 1
policy r (w ∷ ws) = ok w.worker_id

abbrev waiting : RequestRecord
waiting = record (request 7) { status = RequestState.queued }

chosen_worker : (assign policy scheduler waiting 20).1.1 ≡ ok 3
unfolding program
chosen_worker = refl

too_late : (assign policy scheduler waiting 200).1.1 ≡ raise deadline_exceeded
unfolding program
too_late = refl

assign-Assigned_example : Assigned scheduler waiting 20 (assign policy scheduler waiting 20)
assign-Assigned_example = assign-Assigned scheduler waiting 20 policy
