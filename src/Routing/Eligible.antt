-- ===== src/Routing/Eligible.antt =====
-- The filters of serving_platform/routing/policies.py.
use gpu_aware_llm_serving_pl.Common.{
  ℕ, ◌+◌, ◌≡◌, refl, Bool, false, not, ◌&&◌, ◌||◌, Option, none, some, List, [], ◌∷◌, ◌++◌, ltb,
  leb, mem, keep, arith, Option-cases, inl, inr, ◌∙◌,
}
use mathlib.Core.List.{append_assoc, append-nil}
use gpu_aware_llm_serving_pl.Common.Dict.{Dict, insert, is_some}
use gpu_aware_llm_serving_pl.Common.Sort.{sorted}
use gpu_aware_llm_serving_pl.Domain.{WorkerState, RequestRecord, ModelDefinition, estimated_tokens}
use gpu_aware_llm_serving_pl.Routing.{
  Reason, resident_reason, placement_reason, split_workers, filter_workers, placement_filter,
  is_healthy, is_compatible,
}

-- Served with no reason against it.
abbrev pub passes : (WorkerState → Option Reason) → WorkerState → Bool
passes reason w = not (is_some (reason w))

split_workers-keep :
    (reason : WorkerState → Option Reason) (ws es : List WorkerState) (d : Dict Reason)
    → (split_workers reason ws (es, d)).0 ≡ es ++ keep (passes reason) ws
unfolding split_workers
split_workers-keep reason [] es d = rw append-nil
split_workers-keep reason (w ∷ ws) es d = elim (Option-cases (reason w)) [
  | inl e ↦
      rw (e, split_workers)
        (split_workers-keep reason ws (es ++ w ∷ []) d ∙ append_assoc es (w ∷ []) _)
  | inr (x, e) ↦ rw (e, split_workers) (split_workers-keep reason ws es (insert w.worker_id x d))
]

keep_ext :
    (p q : WorkerState → Bool) (ws : List WorkerState)
    → ((w : WorkerState) → p w ≡ q w)
    → keep p ws ≡ keep q ws
keep_ext p q [] h = refl
keep_ext p q (w ∷ ws) h = rw (h w, keep_ext p q ws h)

passes_resident :
    (r : RequestRecord) (w : WorkerState)
    → passes (resident_reason r) w ≡ (
        is_healthy w.health_status
        && not w.draining
        && mem r.model_id w.resident_models
        && ltb w.active_batch_count w.max_concurrency)
unfolding resident_reason
passes_resident r w = ground arith

-- The workers that `filter_workers` lets through are, in the order of their identifiers, those that are
-- healthy, not draining, host the model and have a free slot.
pub filter_workers-keep :
    (r : RequestRecord) (ws : List WorkerState)
    → (filter_workers r ws).0
      ≡ keep
          (λ w.
            is_healthy w.health_status
            && not w.draining
            && mem r.model_id w.resident_models
            && ltb w.active_batch_count w.max_concurrency)
          (sorted (λ w. w.worker_id) ws)
unfolding filter_workers
filter_workers-keep r ws =
    split_workers-keep (resident_reason r) (sorted (λ w. w.worker_id) ws) [] []
    ∙ keep_ext _ _ (sorted (λ w. w.worker_id) ws) (passes_resident r)

-- Whether a worker could hold a model of that size besides a reserve, if its free memory is known.
abbrev pub has_room : Option ℕ → ℕ → ℕ → Bool
has_room none reserve needed = false
has_room (some available) reserve needed = leb (needed + reserve) available

passes_placement :
    (reserve : ℕ) (m : ModelDefinition) (r : RequestRecord) (w : WorkerState)
    → passes (placement_reason reserve m r) w ≡ (
        is_healthy w.health_status
        && not w.draining
        && ltb w.active_batch_count w.max_concurrency
        && is_compatible m.runtime_type w.device_type
        && leb (estimated_tokens r) m.max_context_tokens
        && (mem m.model_id w.resident_models
            || has_room w.available_memory_bytes reserve m.estimated_memory_bytes))
unfolding placement_reason
passes_placement reserve m r w = ground arith

-- The workers that a placement policy considers are, in the order of their identifiers, those that are
-- healthy, not draining, have a free slot, run the model's runtime, whose request fits the context
-- window, and that host the model already or have room for it besides the safety reserve.
pub placement_filter-keep :
    (reserve : ℕ) (m : ModelDefinition) (r : RequestRecord) (ws : List WorkerState)
    → (placement_filter reserve m r ws).0
      ≡ keep
          (λ w.
            is_healthy w.health_status
            && not w.draining
            && ltb w.active_batch_count w.max_concurrency
            && is_compatible m.runtime_type w.device_type
            && leb (estimated_tokens r) m.max_context_tokens
            && (mem m.model_id w.resident_models
                || has_room w.available_memory_bytes reserve m.estimated_memory_bytes))
          (sorted (λ w. w.worker_id) ws)
unfolding placement_filter
placement_filter-keep reserve m r ws =
    split_workers-keep (placement_reason reserve m r) (sorted (λ w. w.worker_id) ws) [] []
    ∙ keep_ext _ _ (sorted (λ w. w.worker_id) ws) (passes_placement reserve m r)
