-- ===== src/Reservations.antt =====
-- serving_platform/routing/reservations.py: placements that no heartbeat shows yet.
-- The routing policy is an argument; a policy that raises leaves the reservations as they are.
pub mod Demand
mod Tests
use gpu_aware_llm_serving_pl.Common.{
  ℕ, suc, ◌+◌, ◌-◌, ◌≡◌, Bool, true, false, not, ◌&&◌, ◌||◌, Option, none, some, List, [], ◌∷◌, ltb,
  leb, ◌==◌, if◌then◌else◌, length, any, to_nat, mem, Result, ok, raise, sum_of,
}
use gpu_aware_llm_serving_pl.Common.Dict.{
  Dict, lookup, insert, erase, has, is_some, values, size, total,
}
use gpu_aware_llm_serving_pl.Common.Sort.{sorted}
use gpu_aware_llm_serving_pl.Domain.{WorkerState, RequestRecord, ModelDefinition}

pub record Reservation : Type 0 where
  pub request_id : ℕ
  pub worker_id : ℕ
  pub model_id : ℕ
  pub memory_bytes : ℕ

abbrev pub Reservations : Type 0
Reservations = Dict Reservation

pub data ReservationError (E : Type 0) : Type 0 where
  value_error runtime_error : ReservationError E
  policy_error : E → ReservationError E

-- Whether the worker and the model are among the pairs reserved so far.
abbrev pub is_reserved : ℕ → ℕ → List (ℕ × ℕ) → Bool
is_reserved w m = any (λ p. (p.0 == w) && (p.1 == m))

abbrev pub less_memory : Option ℕ → ℕ → Option ℕ
less_memory none bytes = none
less_memory (some available) bytes = some (available - bytes)

-- The loop of `_effective_workers`.
unfoldable pub apply_reservations :
    List Reservation → List (ℕ × ℕ) → Dict WorkerState → Dict WorkerState
apply_reservations [] seen ws = ws
apply_reservations (r ∷ rs) seen ws = elim (lookup r.worker_id ws) [
  | none ↦ apply_reservations rs seen ws
  | some w ↦
      let queued = record w { queue_depth = w.queue_depth + 1 } in
      elim (not (r.memory_bytes == 0) && not (is_reserved r.worker_id r.model_id seen)) [
        | false ↦ apply_reservations rs seen (insert r.worker_id queued ws)
        | true ↦ apply_reservations rs ((r.worker_id, r.model_id) ∷ seen) (
            insert r.worker_id
              (record queued {
                available_memory_bytes = less_memory w.available_memory_bytes r.memory_bytes;
              })
              ws)
      ]
]

abbrev pub by_id : List WorkerState → Dict WorkerState
by_id [] = []
by_id (w ∷ ws) = (w.worker_id, w) ∷ by_id ws

unfoldable pub effective_workers : Reservations → List WorkerState → List WorkerState
unfolding apply_reservations
effective_workers d ws =
    sorted (λ w. w.worker_id) (values (apply_reservations (values d) [] (by_id ws)))

-- The memory that a placement needs: none if the model is resident or its load is reserved already.
unfoldable pub needed_memory :
    Reservations → Option (ℕ → Option ModelDefinition) → WorkerState → ℕ → ℕ
needed_memory d none w m = 0
needed_memory d (some models) w m = if mem m w.resident_models then 0 else elim (models m) [
  | none ↦ 0
  | some model ↦
      if any (λ r. (r.worker_id == w.worker_id) && (r.model_id == m)) (values d)
      then 0
      else model.estimated_memory_bytes
]

module _ {E : Type 0} where
  -- The end of `select_and_reserve`, with the registry's answer for the worker selected.
  unfoldable pub place :
      Option (ℕ → Option ModelDefinition)
      → RequestRecord
      → Reservations
      → ℕ
      → Option WorkerState
      → Reservations × Result (ReservationError E) ℕ
  unfolding needed_memory
  place models r d selected none = (d, raise runtime_error)
  place models r d selected (some w) = (
    insert r.request_id
        (record {
          request_id = r.request_id;
          worker_id = w.worker_id;
          model_id = r.model_id;
          memory_bytes = needed_memory d models w r.model_id;
        })
        d,
    ok selected,
  )

  -- The policy's answer is the identifier of a worker; `get_worker` is the registry's look-up.
  unfoldable pub place_selected :
      Option (ℕ → Option ModelDefinition)
      → (ℕ → Option WorkerState)
      → RequestRecord
      → Reservations
      → Result E ℕ
      → Reservations × Result (ReservationError E) ℕ
  unfolding place
  place_selected models get_worker r d (raise x) = (d, raise (policy_error x))
  place_selected models get_worker r d (ok selected) =
      place models r d selected (get_worker selected)

  unfoldable pub select_and_reserve :
      Option (ℕ → Option ModelDefinition)
      → (ℕ → Option WorkerState)
      → (RequestRecord → List WorkerState → Result E ℕ)
      → List WorkerState
      → RequestRecord
      → Reservations
      → Reservations × Result (ReservationError E) ℕ
  unfolding effective_workers place_selected
  select_and_reserve models get_worker policy ws r d =
      if has r.request_id d
      then (d, raise value_error)
      else place_selected models get_worker r d (policy r (effective_workers d ws))

unfoldable pub release : Reservations → ℕ → Reservations × Bool
release d id = (erase id d, has id d)

unfoldable pub demand : Reservations → ℕ → ℕ
demand d m = total (λ r. to_nat (r.model_id == m)) d

pub record Snapshot : Type 0 where
  pub active_reservations : ℕ
  pub reserved_memory_bytes : ℕ

-- The number of entries and their memory; the demand of each model is `demand`.
unfoldable pub snapshot : Reservations → Snapshot
snapshot d = record {
  active_reservations = size d;
  reserved_memory_bytes = total (λ r. r.memory_bytes) d;
}
