-- ===== src/Scheduler/Assignments.antt =====
-- What `assign` of apps/control_plane/scheduler.py does to the request and to the reservations, on every branch.
use gpu_aware_llm_serving_pl.Common.{
  ℕ, ◌+◌, ◌≡◌, refl, ap, true, false, Option, none, some, List, leb, Result, ok, raise, arith,
  Bool-cases, inl, inr,
}
use gpu_aware_llm_serving_pl.Common.Dict.{lookup, has}
use gpu_aware_llm_serving_pl.Domain.{
  RequestRecord, RequestState, ModelDefinition, WorkerState, transition, timed_out, is_allowed,
  stamp,
}
use gpu_aware_llm_serving_pl.Registry.{get_worker, list_workers}
use gpu_aware_llm_serving_pl.Reservations.{
  Reservations, ReservationError, place, place_selected, select_and_reserve, effective_workers,
}
use gpu_aware_llm_serving_pl.Reservations.Demand.{IsEntry, select_and_reserve-IsEntry}
use gpu_aware_llm_serving_pl.Scheduler.{
  Scheduler, AssignError, deadline_exceeded, is_assignable, select_worker, assign_to, assign,
  routed,
}

-- The reservations after a selection: one more for the request, which had none, or none at all.
abbrev pub Reserved : RequestRecord → Option Reservations → Option Reservations → Type 0
Reserved r none none = Unit
Reserved r (some d) (some d') = IsEntry r d d' × (lookup r.request_id d ≡ none)
Reserved r _ _ = ⊥

-- The request that is assigned.
abbrev pub assigned_record : RequestRecord → ℕ → ℕ → RequestRecord
assigned_record r w now = record r {
  assigned_worker_id = some w;
  attempt_count = r.attempt_count + 1;
  status = RequestState.assigned;
  transition_timestamps = stamp r.transition_timestamps RequestState.assigned now;
}

is_assignable_allowed :
    (s : RequestState)
    → is_assignable s ≡ true
    → (is_allowed s RequestState.assigned ≡ true) × (is_allowed s timed_out ≡ true)
unfolding is_allowed
is_assignable_allowed RequestState.admitted e = (refl, refl)
is_assignable_allowed RequestState.queued e = (refl, refl)
is_assignable_allowed _ e = ground (arith, e)

module _ {E : Type 0} (models : Option (ℕ → Option ModelDefinition)) (get : ℕ → Option WorkerState)
    (r : RequestRecord) (d : Reservations) where
  failed-place :
      (w : ℕ) (o : Option WorkerState) (e : ReservationError E)
      → (place {E = E} models r d w o).1 ≡ raise e
      → (place {E = E} models r d w o).0 ≡ d
  unfolding place
  failed-place w none e h = refl
  failed-place w (some x) e h = cc

  failed-place_selected :
      (x : Result E ℕ) (e : ReservationError E)
      → (place_selected models get r d x).1 ≡ raise e
      → (place_selected models get r d x).0 ≡ d
  unfolding place_selected
  failed-place_selected (raise x) e h = refl
  failed-place_selected (ok w) e h = failed-place w (get w) e h

  -- A selection that fails keeps the reservations.
  failed-select_and_reserve :
      (policy : RequestRecord → List WorkerState → Result E ℕ) (ws : List WorkerState)
      (e : ReservationError E)
      → (select_and_reserve models get policy ws r d).1 ≡ raise e
      → (select_and_reserve models get policy ws r d).0 ≡ d
  unfolding select_and_reserve
  failed-select_and_reserve policy ws e = elim (Bool-cases (has r.request_id d)) [
    | inl old ↦ rw (old, select_and_reserve) (λ h. refl)
    | inr new ↦
        rw (new, select_and_reserve) (failed-place_selected (policy r (effective_workers d ws)) e)
  ]

module _ {E : Type 0} (policy : RequestRecord → List WorkerState → Result E ℕ) (s : Scheduler)
    (r : RequestRecord) where
  abbrev Selected :
      Option Reservations → Option Reservations × Result (ReservationError E) ℕ → Type 0
  Selected o (o', ok w) = Reserved r o o'
  Selected o (o', raise e) = o' ≡ o

  reserved_or_same :
      (d : Reservations) (x : Reservations × Result (ReservationError E) ℕ)
      → ((t : ℕ) → x.1 ≡ ok t → IsEntry r d x.0 × (lookup r.request_id d ≡ none))
      → ((e : ReservationError E) → x.1 ≡ raise e → x.0 ≡ d)
      → Selected (some d) (some x.0, x.1)
  reserved_or_same d (d', ok w) p q = p w refl
  reserved_or_same d (d', raise e) p q = ap some (q e refl)

  select_worker-Selected : (o : Option Reservations) → Selected o (select_worker policy s r o)
  unfolding select_worker
  select_worker-Selected none = selected_none (policy r (list_workers s.registry))
    where
      selected_none : (x : Result E ℕ) → Selected none (none, routed policy x)
      selected_none (ok w) = tt
      selected_none (raise e) = refl
  select_worker-Selected (some d) =
      reserved_or_same d
        (select_and_reserve s.models (get_worker s.registry) policy (list_workers s.registry) r d)
        (λ t h.
          select_and_reserve-IsEntry s.models r d (get_worker s.registry) policy
            (list_workers s.registry) t h)
        (λ e h.
          failed-select_and_reserve s.models (get_worker s.registry) r d policy
            (list_workers s.registry) e h)

module _ {E : Type 0} (s : Scheduler) (r : RequestRecord) (now : ℕ) where
  abbrev pub Assigned : Scheduler × (RequestRecord × Result (AssignError E) ℕ) → Type 0
  Assigned (s', (r', ok w)) =
      (is_assignable r.status ≡ true)
      × (leb r.deadline now ≡ false)
      × Reserved r s.reservations s'.reservations
      × (r' ≡ assigned_record r w now)
  Assigned (s', (r', raise deadline_exceeded)) =
      (leb r.deadline now ≡ true) × (s' ≡ s) × (r'.status ≡ RequestState.timed_out)
  Assigned (s', (r', raise e)) = (s' ≡ s) × (r' ≡ r)

  assign_to-Assigned :
      (policy : RequestRecord → List WorkerState → Result E ℕ)
      (x : Option Reservations × Result (ReservationError E) ℕ)
      → is_assignable r.status ≡ true
      → leb r.deadline now ≡ false
      → Selected policy s r s.reservations x
      → Assigned (assign_to policy s r now x)
  unfolding transition
  assign_to-Assigned policy (o, raise e) a l p = (ap (λ y. record s { reservations = y }) p, refl)
  assign_to-Assigned policy (o, ok w) a l p =
      rw ((is_assignable_allowed r.status a).0) (a, l, p, refl)

  -- What an assignment does, whatever the policy answers. Where it succeeds, the request was admitted or queued and in
  -- time, is assigned to the worker with one attempt more, and has the one reservation that is new, if reservations are
  -- kept. Where the deadline has passed the request is timed out and no reservation changes. After any other exception
  -- the request and the reservations are as before.
  pub assign-Assigned :
      (policy : RequestRecord → List WorkerState → Result E ℕ) → Assigned (assign policy s r now)
  unfolding assign transition
  assign-Assigned policy = elim (Bool-cases (is_assignable r.status)) [
    | inr other ↦ rw (other, assign) (refl, refl)
    | inl a ↦ elim (Bool-cases (leb r.deadline now)) [
      | inl late ↦ rw (a, late, (is_assignable_allowed r.status a).1, assign) (late, refl, refl)
      | inr soon ↦
          rw (a, soon, assign)
            (assign_to-Assigned policy (select_worker policy s r s.reservations) a soon
              (select_worker-Selected policy s r s.reservations))
    ]
  ]
