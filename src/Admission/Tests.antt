-- ===== src/Admission/Tests.antt =====
-- The admission controller on two tenants.
use gpu_aware_llm_serving_pl.Common.{◌≡◌, refl, some, List, [], ◌∷◌, ok}
use gpu_aware_llm_serving_pl.Common.Dict.{lookup, insert, erase, total}
use gpu_aware_llm_serving_pl.Domain.{TenantLimits}
use gpu_aware_llm_serving_pl.Fixtures.{request, model, workers, tenant}
use gpu_aware_llm_serving_pl.Admission.{
  Controller, init_controller, decide, mark_running, release, snapshot, reserve, refusal,
  is_healthy, leave_queue, started, start, drop_running, drop_waiting, tenant_concurrency_limit,
  refuse,
}
use gpu_aware_llm_serving_pl.Admission.Histories.{
  Inv, Call, decides, marks_running, step, run, run-init_controller-Inv, release-decide,
}

program : Unit {0}
unfolding lookup insert erase total init_controller decide mark_running release reserve refusal
    is_healthy leave_queue started start drop_running drop_waiting step run
program = tt

abbrev tenants : List TenantLimits
tenants = tenant 1 ∷ []

abbrev empty : Controller
empty = record {
  tenants = (1, tenant 1) ∷ [];
  global_queue_capacity = 4;
  queued = [];
  running = [];
  tokens = [];
  reserved = [];
}

init_empty : init_controller tenants 4 ≡ ok empty
unfolding program
init_empty = refl

abbrev calls : List Call
calls =
    decides (request 7) (some model) workers 20
    ∷ marks_running 7
    ∷ decides (request 8) (some model) workers 21
    ∷ []

one_runs : snapshot (run calls empty) 1 ≡ (0, 1, 10)
unfolding program
one_runs = refl

-- The second request is refused while the first one runs.
second_refused :
    (decide (run calls empty) (request 8) (some model) workers 21).1
    ≡ refuse tenant_concurrency_limit
unfolding program
second_refused = refl

run-init_controller-Inv_example : Inv (run calls empty)
run-init_controller-Inv_example = run-init_controller-Inv tenants 4 calls empty init_empty

release-decide_example :
    snapshot (release (decide empty (request 7) (some model) workers 20).0 7) 1 ≡ snapshot empty 1
unfolding program
release-decide_example = release-decide empty (request 7) (some model) workers 20 1 refl
