-- ===== src/Reservations/Tests.antt =====
-- Two placements on one worker.
use gpu_aware_llm_serving_pl.Common.{ℕ, ◌≡◌, refl, Option, some, List, [], ◌∷◌, Result, ok, ◌+◌}
use gpu_aware_llm_serving_pl.Common.Dict.{lookup, insert, erase, total}
use gpu_aware_llm_serving_pl.Common.Sort.{sorted, insort}
use gpu_aware_llm_serving_pl.Domain.{WorkerState, RequestRecord, ModelDefinition}
use gpu_aware_llm_serving_pl.Fixtures.{request, model, worker, workers}
use gpu_aware_llm_serving_pl.Reservations.{
  Reservations, apply_reservations, effective_workers, needed_memory, place, place_selected,
  select_and_reserve, release, demand, snapshot,
}
use gpu_aware_llm_serving_pl.Reservations.Demand.{demand-select_and_reserve}

program : Unit {0}
unfolding lookup insert erase total sorted insort apply_reservations effective_workers needed_memory
    place place_selected select_and_reserve release demand snapshot
program = tt

abbrev models : ℕ → Option ModelDefinition
models m = some model

abbrev get_worker : ℕ → Option WorkerState
get_worker i = some worker

abbrev policy : RequestRecord → List WorkerState → Result ℕ ℕ
policy r ws = ok 3

abbrev reserved : Reservations → ℕ → Reservations
reserved d i = (select_and_reserve (some models) get_worker policy workers (request i) d).0

-- The load of a model is paid once.
one_load : (snapshot (reserved (reserved [] 1) 4)).reserved_memory_bytes ≡ 10
unfolding program
one_load = refl

seen_by_policy :
    effective_workers (reserved (reserved [] 1) 4) workers
    ≡ record worker { queue_depth = 2; available_memory_bytes = some 90 } ∷ []
unfolding program
seen_by_policy = refl

demand-select_and_reserve_example :
    (demand (reserved [] 1) 2 ≡ demand [] 2 + 1)
    × (demand (release (reserved [] 1) 1).0 2 ≡ demand [] 2)
unfolding program
demand-select_and_reserve_example =
    demand-select_and_reserve (some models) (request 1) [] get_worker policy workers 3 2 tt refl
