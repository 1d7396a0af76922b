-- ===== src/Routing/Choice.antt =====
-- The choices of serving_platform/routing/policies.py among the eligible workers.
use gpu_aware_llm_serving_pl.Common.{
  ℕ, ◌≡◌, true, false, not, some, List, [], ◌∷◌, if◌then◌else◌, if_cases, mem, All, to_nat, ok,
  arith,
}
use gpu_aware_llm_serving_pl.Common.Dict.{Dict}
use gpu_aware_llm_serving_pl.Domain.{WorkerState, RequestRecord, ModelDefinition}
use gpu_aware_llm_serving_pl.Routing.{
  Reason, placement_filter, is_less, least, choose, residency_aware, ids,
}

module _ (first second : WorkerState → ℕ) where
  is_less_trans :
      (u v w : WorkerState)
      → is_less first second u v ≡ false
      → is_less first second v w ≡ false
      → is_less first second u w ≡ false
  is_less_trans u v w h k = ground arith

  -- No worker of the list has a smaller key than that one.
  abbrev pub IsLeast : WorkerState → List WorkerState → Type 0
  IsLeast l = All (λ v. is_less first second v l ≡ false)

  is_less_refl : (w : WorkerState) → is_less first second w w ≡ false
  is_less_refl w = ground arith

  is_less-smaller :
      (v w : WorkerState)
      → (is_less first second v (if is_less first second v w then v else w) ≡ false)
        × (is_less first second w (if is_less first second v w then v else w) ≡ false)
  is_less-smaller v w =
      if_cases (λ x. (is_less first second v x ≡ false) × (is_less first second w x ≡ false))
        (is_less first second v w) (λ h. (is_less_refl v, ground arith)) (λ h. (h, is_less_refl w))

  least-IsLeast :
      (w : WorkerState) (ws : List WorkerState) → IsLeast (least first second w ws) (w ∷ ws)
  unfolding least
  least-IsLeast w [] = (is_less_refl w, tt)
  least-IsLeast w (v ∷ vs) =
      let smaller = if is_less first second v w then v else w in
      let (kept, others) = least-IsLeast smaller vs in
      let (of_v, of_w) = is_less-smaller v w in
      (
        is_less_trans w smaller (least first second smaller vs) of_w kept,
        (is_less_trans v smaller (least first second smaller vs) of_v kept, others),
      )

  mem-least :
      (w : WorkerState) (ws : List WorkerState)
      → mem (least first second w ws).worker_id (ids (w ∷ ws)) ≡ true
  unfolding least
  mem-least w [] = ground arith
  mem-least w (v ∷ vs) = ground (arith, mem-least (if is_less first second v w then v else w) vs)

  choose-ids :
      (x : List WorkerState × Dict Reason) (w : WorkerState) (es : List WorkerState)
      → x.0 ≡ w ∷ es
      → choose first second x
        ≡ ok (record {
          selected_worker_id = (least first second w es).worker_id;
          candidates = ids (w ∷ es);
          rejected = x.1;
        })
  unfolding choose
  choose-ids ([], d) w es h = cc
  choose-ids (v ∷ vs, d) w es h = cc

-- The two keys of the residency-aware policy: whether the model must be loaded, then the queue.
abbrev pub must_load : ModelDefinition → WorkerState → ℕ
must_load m w = to_nat (not (mem m.model_id w.resident_models))

-- If any worker can hold the model, the residency-aware policy selects one that can, such that none of
-- the others hosts the model while it does not, or has a shorter queue, or the same queue and an earlier
-- identifier, among the workers that host the model as it does.
pub residency_aware-IsLeast :
    (reserve : ℕ) (m : ModelDefinition) (r : RequestRecord) (ws : List WorkerState)
    (w : WorkerState) (es : List WorkerState)
    → (placement_filter reserve m r ws).0 ≡ w ∷ es
    → (mem (least (must_load m) (λ v. v.queue_depth) w es).worker_id (ids (w ∷ es)) ≡ true)
      × IsLeast
          (must_load m)
          (λ v. v.queue_depth)
          (least (must_load m) (λ v. v.queue_depth) w es)
          (w ∷ es)
      × (residency_aware reserve (some m) r ws
          ≡ ok (record {
            selected_worker_id = (least (must_load m) (λ v. v.queue_depth) w es).worker_id;
            candidates = ids (w ∷ es);
            rejected = (placement_filter reserve m r ws).1;
          }))
unfolding residency_aware
residency_aware-IsLeast reserve m r ws w es h = (
  mem-least (must_load m) (λ v. v.queue_depth) w es,
  least-IsLeast (must_load m) (λ v. v.queue_depth) w es,
  choose-ids (must_load m) (λ v. v.queue_depth) (placement_filter reserve m r ws) w es h,
)
