-- ===== src/Routing/Tests.antt =====
-- Runs of the routing policies, and their theorems at small inputs.
use gpu_aware_llm_serving_pl.Common.{◌≡◌, refl, true, some, List, [], ◌∷◌, ok, mem}
use gpu_aware_llm_serving_pl.Fixtures.{request, model, worker}
use gpu_aware_llm_serving_pl.Common.Sort.{sorted, insort}
use gpu_aware_llm_serving_pl.Common.Dict.{insert}
use gpu_aware_llm_serving_pl.Domain.{WorkerState}
use gpu_aware_llm_serving_pl.Routing.{
  residency_aware, filter_workers, placement_filter, split_workers, resident_reason,
  placement_reason, least, choose, ids,
}
use gpu_aware_llm_serving_pl.Routing.Eligible.{filter_workers-keep, placement_filter-keep}
use gpu_aware_llm_serving_pl.Routing.Choice.{residency_aware-IsLeast, IsLeast, must_load}

program : Unit {0}
unfolding filter_workers placement_filter split_workers resident_reason placement_reason insert
    sorted insort least choose residency_aware
program = tt

abbrev resident : WorkerState
resident = record worker { worker_id = 1; resident_models = 2 ∷ []; queue_depth = 4 }

abbrev pool : List WorkerState
pool = worker ∷ resident ∷ []

eligible_ids : ids (filter_workers (request 1) pool).0 ≡ 1 ∷ []
unfolding program
eligible_ids = refl

filter_workers-keep_example : (filter_workers (request 1) pool).0 ≡ resident ∷ []
unfolding program
filter_workers-keep_example = filter_workers-keep (request 1) pool

placement_filter-keep_example :
    (placement_filter 5 model (request 1) pool).0 ≡ resident ∷ worker ∷ []
unfolding program
placement_filter-keep_example = placement_filter-keep 5 model (request 1) pool

residency_aware-IsLeast_example :
    (mem 1 (1 ∷ 3 ∷ []) ≡ true)
    × IsLeast (must_load model) (λ v. v.queue_depth) resident (resident ∷ worker ∷ [])
    × (residency_aware 5 (some model) (request 1) pool
        ≡ ok (record { selected_worker_id = 1; candidates = 1 ∷ 3 ∷ []; rejected = [] }))
unfolding program
residency_aware-IsLeast_example =
    residency_aware-IsLeast 5 model (request 1) pool resident (worker ∷ []) refl
