-- ===== src/Scheduler.antt =====
-- apps/control_plane/scheduler.py: the assignment of a request to a worker, over the reservations of
-- serving_platform/routing/reservations.py, or over the registry where there are none. The policy is an argument, an
-- assignment is the worker's identifier, and its explanation is left out. The reservations use the same registry.
pub mod Assignments
mod Tests
use gpu_aware_llm_serving_pl.Common.{
  ℕ, ◌+◌, ◌≡◌, Bool, true, false, not, Option, none, some, List, [], ◌∷◌, leb, if◌then◌else◌,
  Result, ok, raise,
}
use gpu_aware_llm_serving_pl.Domain.{
  RequestRecord, RequestState, ModelDefinition, WorkerState, DomainError, transition, timed_out,
}
use gpu_aware_llm_serving_pl.Registry.{Registry, get_worker, list_workers}
use gpu_aware_llm_serving_pl.Reservations.{Reservations, ReservationError, select_and_reserve}
use gpu_aware_llm_serving_pl.Reservations

pub data AssignError (E : Type 0) : Type 0 where
  value_error deadline_exceeded invalid_transition : AssignError E
  routing_error : ReservationError E → AssignError E

pub record Scheduler : Type 0 where
  pub registry : Registry
  pub reservations : Option Reservations
  pub models : Option (ℕ → Option ModelDefinition)

abbrev pub is_assignable : RequestState → Bool
is_assignable RequestState.admitted = true
is_assignable RequestState.queued = true
is_assignable _ = false

module _ {E : Type 0} (policy : RequestRecord → List WorkerState → Result E ℕ) where
  abbrev pub routed : Result E ℕ → Result (ReservationError E) ℕ
  routed (ok w) = ok w
  routed (raise e) = raise (ReservationError.policy_error e)

  -- The worker selected, and the reservations after it.
  unfoldable pub select_worker :
      Scheduler
      → RequestRecord
      → Option Reservations
      → Option Reservations × Result (ReservationError E) ℕ
  select_worker s r none = (none, routed (policy r (list_workers s.registry)))
  select_worker s r (some d) =
      let (d', answer) =
        select_and_reserve s.models (get_worker s.registry) policy (list_workers s.registry) r d in
      (some d', answer)

  abbrev pub taken : RequestRecord → ℕ → RequestRecord
  taken r w = record r { assigned_worker_id = some w; attempt_count = r.attempt_count + 1 }

  abbrev pub assigned_for :
      RequestRecord
      → ℕ
      → Result DomainError RequestRecord
      → RequestRecord × Result (AssignError E) ℕ
  assigned_for r w (raise e) = (r, raise invalid_transition)
  assigned_for r w (ok r') = (r', ok w)

  abbrev pub assign_to :
      Scheduler
      → RequestRecord
      → ℕ
      → Option Reservations × Result (ReservationError E) ℕ
      → Scheduler × (RequestRecord × Result (AssignError E) ℕ)
  assign_to s r now (d, raise e) = (record s { reservations = d }, (r, raise (routing_error e)))
  assign_to s r now (d, ok w) = (
    record s { reservations = d },
    assigned_for (taken r w) w (transition (taken r w) RequestState.assigned now),
  )

  abbrev pub expired_for :
      RequestRecord → Result DomainError RequestRecord → RequestRecord × Result (AssignError E) ℕ
  expired_for r (raise e) = (r, raise invalid_transition)
  expired_for r (ok r') = (r', raise deadline_exceeded)

  unfoldable pub assign :
      Scheduler → RequestRecord → ℕ → Scheduler × (RequestRecord × Result (AssignError E) ℕ)
  unfolding select_worker
  assign s r now =
      if not (is_assignable r.status)
      then (s, (r, raise value_error))
      else if leb r.deadline now
      then (s, expired_for r (transition r timed_out now))
      else assign_to s r now (select_worker s r s.reservations)

abbrev release_from : ℕ → Option Reservations → Option Reservations × Bool
release_from id none = (none, false)
release_from id (some d) = let (d', found) = Reservations.release d id in (some d', found)

unfoldable pub release_assignment : Scheduler → ℕ → Scheduler × Bool
release_assignment s id =
    let (d, found) = release_from id s.reservations in (record s { reservations = d }, found)
