-- ===== src/Routing.antt =====
-- serving_platform/routing/policies.py: which workers may serve a request, and which one is chosen.
-- Scores and scoring inputs, which only explain a decision, are left out; where a policy's scores are
-- fractions (memory, completion time, demand) the policy is not modelled.
pub mod Eligible
pub mod Choice
mod Tests
use gpu_aware_llm_serving_pl.Common.{
  ◌++◌, ℕ, ◌+◌, ◌-◌, ◌%◌, ◌≡◌, Bool, true, false, not, ◌&&◌, ◌||◌, Option, none, some, List, [],
  ◌∷◌, ltb, leb, ◌==◌, if◌then◌else◌, length, mem, map, get_elem?, to_nat, Result, ok, raise,
}
use gpu_aware_llm_serving_pl.Common.Dict.{Dict, insert}
use gpu_aware_llm_serving_pl.Common.Sort.{sorted}
use gpu_aware_llm_serving_pl.Domain.{
  WorkerState, RequestRecord, ModelDefinition, HealthStatus, healthy, DeviceType, cpu, cuda,
  simulated_gpu, RuntimeType, huggingface, simulated, estimated_tokens,
}

pub data Reason : Type 0 where
  health : HealthStatus → Reason
  worker_draining model_not_resident worker_concurrency_saturated runtime_incompatible : Reason
  context_window_exceeded memory_unknown_for_cold_load : Reason
  insufficient_memory_after_safety_reserve : Reason

abbrev pub is_healthy : HealthStatus → Bool
is_healthy healthy = true
is_healthy _ = false

-- The reason for which `filter_workers` rejects a worker.
unfoldable pub resident_reason : RequestRecord → WorkerState → Option Reason
resident_reason r w =
    if not (is_healthy w.health_status)
    then some (health w.health_status)
    else if w.draining
    then some worker_draining
    else if not (mem r.model_id w.resident_models)
    then some model_not_resident
    else if leb w.max_concurrency w.active_batch_count
    then some worker_concurrency_saturated
    else none

abbrev pub is_compatible : RuntimeType → DeviceType → Bool
is_compatible simulated simulated_gpu = true
is_compatible huggingface cpu = true
is_compatible huggingface cuda = true
is_compatible _ _ = false

-- available - reserve < needed, on the integers.
abbrev pub lacks_memory : Option ℕ → ℕ → ℕ → Option Reason
lacks_memory none reserve needed = some memory_unknown_for_cold_load
lacks_memory (some available) reserve needed =
    if ltb available (needed + reserve) then some insufficient_memory_after_safety_reserve else none

-- The reason for which `PlacementPolicy._filter` rejects a worker.
unfoldable pub placement_reason : ℕ → ModelDefinition → RequestRecord → WorkerState → Option Reason
placement_reason reserve m r w =
    if not (is_healthy w.health_status)
    then some (health w.health_status)
    else if w.draining
    then some worker_draining
    else if leb w.max_concurrency w.active_batch_count
    then some worker_concurrency_saturated
    else if not (is_compatible m.runtime_type w.device_type)
    then some runtime_incompatible
    else if ltb m.max_context_tokens (estimated_tokens r)
    then some context_window_exceeded
    else if not (mem m.model_id w.resident_models)
    then lacks_memory w.available_memory_bytes reserve m.estimated_memory_bytes
    else none

-- The loop of both filters over the sorted workers: the eligible ones, and the reasons by worker.
unfoldable pub split_workers :
    (WorkerState → Option Reason)
    → List WorkerState
    → List WorkerState × Dict Reason
    → List WorkerState × Dict Reason
split_workers reason [] (eligible, rejected) = (eligible, rejected)
split_workers reason (w ∷ ws) (eligible, rejected) = split_workers reason ws (elim (reason w) [
  | none ↦ (eligible ++ w ∷ [], rejected)
  | some x ↦ (eligible, insert w.worker_id x rejected)
])

unfoldable pub filter_workers : RequestRecord → List WorkerState → List WorkerState × Dict Reason
unfolding split_workers resident_reason
filter_workers r ws = split_workers (resident_reason r) (sorted (λ w. w.worker_id) ws) ([], [])

pub data RoutingError : Type 0 where
  no_eligible_worker : Dict Reason → RoutingError
  unknown_model : RoutingError

pub record Decision : Type 0 where
  pub selected_worker_id : ℕ
  pub candidates : List ℕ
  pub rejected : Dict Reason

abbrev pub ids : List WorkerState → List ℕ
ids = map (λ w. w.worker_id)

-- The policy's state is the number of its selections.
unfoldable pub round_robin : ℕ → RequestRecord → List WorkerState → ℕ × Result RoutingError Decision
round_robin next r ws =
    let (eligible, rejected) = filter_workers r ws in
    elim (get_elem? eligible (next % length eligible)) [
      | none ↦ (next, raise (no_eligible_worker rejected))
      | some w ↦ (
        next + 1,
        ok (record {
          selected_worker_id = w.worker_id;
          candidates = ids eligible;
          rejected = rejected;
        }),
      )
    ]

-- `min(workers, key=...)` with a pair of numbers and the identifier for a key.
abbrev pub is_less : (WorkerState → ℕ) → (WorkerState → ℕ) → WorkerState → WorkerState → Bool
is_less first second v w =
    ltb (first v) (first w)
    || ((first v == first w)
        && (ltb (second v) (second w) || ((second v == second w) && ltb v.worker_id w.worker_id)))

unfoldable pub least :
    (WorkerState → ℕ) → (WorkerState → ℕ) → WorkerState → List WorkerState → WorkerState
least first second w [] = w
least first second w (v ∷ vs) = least first second (if is_less first second v w then v else w) vs

unfoldable pub choose :
    (WorkerState → ℕ)
    → (WorkerState → ℕ)
    → List WorkerState × Dict Reason
    → Result RoutingError Decision
unfolding least
choose first second ([], rejected) = raise (no_eligible_worker rejected)
choose first second (w ∷ ws, rejected) = ok (record {
  selected_worker_id = (least first second w ws).worker_id;
  candidates = ids (w ∷ ws);
  rejected = rejected;
})

unfoldable pub least_queue_depth : RequestRecord → List WorkerState → Result RoutingError Decision
unfolding filter_workers choose
least_queue_depth r ws = choose (λ w. w.queue_depth) (λ w. 0) (filter_workers r ws)

unfoldable pub placement_filter :
    ℕ → ModelDefinition → RequestRecord → List WorkerState → List WorkerState × Dict Reason
unfolding split_workers placement_reason
placement_filter reserve m r ws =
    split_workers (placement_reason reserve m r) (sorted (λ w. w.worker_id) ws) ([], [])

-- A model that the registry does not know is an error.
unfoldable pub residency_aware :
    ℕ → Option ModelDefinition → RequestRecord → List WorkerState → Result RoutingError Decision
unfolding placement_filter choose
residency_aware reserve none r ws = raise unknown_model
residency_aware reserve (some m) r ws =
    choose (λ w. to_nat (not (mem m.model_id w.resident_models))) (λ w. w.queue_depth)
      (placement_filter reserve m r ws)
