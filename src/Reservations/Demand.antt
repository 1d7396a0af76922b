-- ===== src/Reservations/Demand.antt =====
-- The demand that the reservations of serving_platform/routing/reservations.py record.
use gpu_aware_llm_serving_pl.Common.{
  ℕ, ◌+◌, ◌≡◌, refl, Option, none, some, List, ◌==◌, to_nat, Result, ok, raise, arith, if_cases, ap,
  sym, ◌∙◌,
}
use gpu_aware_llm_serving_pl.Common.Dict.{
  lookup, insert, erase, has, total, share, IsDict, total-insert, total-erase, insert-IsDict,
  lookup-insert,
}
use gpu_aware_llm_serving_pl.Domain.{WorkerState, RequestRecord, ModelDefinition}
use gpu_aware_llm_serving_pl.Reservations.{
  Reservation, Reservations, ReservationError, place, place_selected, select_and_reserve,
  effective_workers, release, demand,
}

-- What one reservation of that request adds.
abbrev pub IsEntry : RequestRecord → Reservations → Reservations → Type 0
IsEntry r d d' = (v : Reservation) × ((d' ≡ insert r.request_id v d) × (v.model_id ≡ r.model_id))

-- A sum over the entries before and after a new one.
total-entry :
    (f : Reservation → ℕ) (k : ℕ) (v : Reservation) (d : Reservations)
    → lookup k d ≡ none
    → IsDict d
    → (total f (insert k v d) ≡ total f d + f v) × (total f (erase k (insert k v d)) ≡ total f d)
total-entry f k v d h dict =
    let more : total f (insert k v d) ≡ total f d + f v = ground (arith, h, total-insert f k v d) in
    let found : lookup k (insert k v d) ≡ some v = ground (arith, lookup-insert k k v d) in
    let gone : total f (erase k (insert k v d)) + f v ≡ total f (insert k v d) =
      ap (λ x. total f (erase k (insert k v d)) + share f x) (sym found)
      ∙ total-erase f k (insert k v d) (insert-IsDict k v d dict) in
    (more, omega (arith, more, gone))

module _ {E : Type 0} (models : Option (ℕ → Option ModelDefinition)) (r : RequestRecord)
    (d : Reservations) where
  place-IsEntry :
      (s t : ℕ) (w : Option WorkerState)
      → (place {E = E} models r d s w).1 ≡ ok t
      → IsEntry r d (place {E = E} models r d s w).0
  unfolding place
  place-IsEntry s t none h = cc
  place-IsEntry s t (some w) h = (_, (refl, refl))

  place_selected-IsEntry :
      (get_worker : ℕ → Option WorkerState) (t : ℕ) (x : Result E ℕ)
      → (place_selected models get_worker r d x).1 ≡ ok t
      → IsEntry r d (place_selected models get_worker r d x).0
  unfolding place_selected
  place_selected-IsEntry get_worker t (raise x) h = cc
  place_selected-IsEntry get_worker t (ok s) h = place-IsEntry s t (get_worker s) h

  pub select_and_reserve-IsEntry :
      (get_worker : ℕ → Option WorkerState) (policy : RequestRecord → List WorkerState → Result E ℕ)
      (ws : List WorkerState) (t : ℕ)
      → (select_and_reserve models get_worker policy ws r d).1 ≡ ok t
      → IsEntry r d (select_and_reserve models get_worker policy ws r d).0
        × (lookup r.request_id d ≡ none)
  unfolding select_and_reserve
  select_and_reserve-IsEntry get_worker policy ws t =
      if_cases {A = Reservations × Result (ReservationError E) ℕ}
        (λ x. x.1 ≡ ok t → IsEntry r d x.0 × (lookup r.request_id d ≡ none)) (has r.request_id d)
        (λ k h. cc)
        (λ k h.
          (place_selected-IsEntry get_worker t (policy r (effective_workers d ws)) h, ground arith))

  -- A placement that is reserved adds one to the demand of the request's model and to no other, and its release
  -- takes that away again.
  pub demand-select_and_reserve :
      (get_worker : ℕ → Option WorkerState) (policy : RequestRecord → List WorkerState → Result E ℕ)
      (ws : List WorkerState) (t m : ℕ)
      → IsDict d
      → (select_and_reserve models get_worker policy ws r d).1 ≡ ok t
      → let d' = (select_and_reserve models get_worker policy ws r d).0 in
        (demand d' m ≡ demand d m + to_nat (r.model_id == m))
        × (demand (release d' r.request_id).0 m ≡ demand d m)
  unfolding demand release
  demand-select_and_reserve get_worker policy ws t m dict h =
      let ((v, (e, model)), fresh) = select_and_reserve-IsEntry get_worker policy ws t h in
      let f : Reservation → ℕ = λ x. to_nat (x.model_id == m) in
      let (more, back) = total-entry f r.request_id v d fresh dict in
      (
        ap (total f) e ∙ more ∙ ap (λ i. total f d + to_nat (i == m)) model,
        ap (λ x. total f (erase r.request_id x)) e ∙ back,
      )
