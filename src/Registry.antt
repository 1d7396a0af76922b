-- ===== src/Registry.antt =====
-- serving_platform/registry/in_memory.py: the worker and the model registry. Locks make each method one
-- step, copies are values here, and the clock's reading is an argument.
pub mod Keeping
pub mod Liveness
mod Tests
use gpu_aware_llm_serving_pl.Common.{
  ℕ, ◌+◌, ◌-◌, ◌*◌, ◌/◌, ◌≡◌, Bool, true, false, not, ◌&&◌, ◌||◌, Option, none, some, List, [], ◌∷◌,
  ltb, leb, ◌==◌, if◌then◌else◌, map, Result, ok, raise,
}
use gpu_aware_llm_serving_pl.Common.Dict.{Dict, lookup, insert, erase, values}
use gpu_aware_llm_serving_pl.Common.Sort.{sorted}
use gpu_aware_llm_serving_pl.Domain.{
  WorkerState, ModelDefinition, HealthStatus, healthy, suspect, unhealthy, stopped, registering,
  recovering,
}

pub data RegistryError : Type 0 where
  value_error key_error runtime_error : RegistryError

pub record Registry : Type 0 where
  pub heartbeat_timeout_seconds : ℕ
  pub suspect_after_seconds : ℕ
  pub workers : Dict WorkerState

abbrev pub fresh_registry : ℕ → ℕ → Registry
fresh_registry timeout after = record {
  heartbeat_timeout_seconds = timeout;
  suspect_after_seconds = after;
  workers = [];
}

-- The default of the second argument is half of the first one, which is positive and less than it. An age in whole
-- ticks exceeds that half where it exceeds the half rounded down.
unfoldable pub init_registry : ℕ → Option ℕ → Result RegistryError Registry
init_registry timeout after = if timeout == 0 then raise value_error else elim after [
  | none ↦ ok (fresh_registry timeout (timeout / 2))
  | some s ↦ if (s == 0) || leb timeout s then raise value_error else ok (fresh_registry timeout s)
]

abbrev pub get_worker : Registry → ℕ → Option WorkerState
get_worker g i = lookup i g.workers

abbrev pub list_workers : Registry → List WorkerState
list_workers g = sorted (λ w. w.worker_id) (values g.workers)

-- The fields that a registration and a heartbeat both set.
abbrev pub refreshed : WorkerState → ℕ → ℕ → WorkerState
refreshed w now sequence = record w {
  health_status = healthy;
  last_heartbeat = now;
  heartbeat_sequence = sequence;
  consecutive_failures = 0;
  last_error_code = none;
}

unfoldable pub register : Registry → WorkerState → ℕ → Registry
register g w now = record g { workers = insert w.worker_id (refreshed w now 0) g.workers }

-- status in {UNHEALTHY, STOPPED}
abbrev pub is_lost : HealthStatus → Bool
is_lost unhealthy = true
is_lost stopped = true
is_lost _ = false

unfoldable pub heartbeat : Registry → WorkerState → ℕ → Registry × Result RegistryError Bool
heartbeat g w now = elim (lookup w.worker_id g.workers) [
  | none ↦ (g, raise key_error)
  | some current ↦ if is_lost current.health_status then (g, raise runtime_error) else (
    record g {
      workers = insert w.worker_id (refreshed w now (current.heartbeat_sequence + 1)) g.workers;
    },
    ok true,
  )
]

unfoldable pub unregister : Registry → ℕ → Registry
unregister g i = record g { workers = erase i g.workers }

-- A worker is blamed with an error code; an empty code is 0.
abbrev pub blamed : WorkerState → HealthStatus → ℕ → WorkerState
blamed w status code = record w {
  health_status = status;
  consecutive_failures = w.consecutive_failures + 1;
  last_error_code = some code;
}

unfoldable pub mark_suspect : Registry → ℕ → ℕ → Registry × Result RegistryError Bool
mark_suspect g i code = if code == 0 then (g, raise value_error) else elim (lookup i g.workers) [
  | none ↦ (g, raise key_error)
  | some w ↦
      if is_lost w.health_status
      then (g, ok true)
      else (record g { workers = insert i (blamed w suspect code) g.workers }, ok true)
]

-- status in {HEALTHY, SUSPECT}
abbrev pub is_watched : HealthStatus → Bool
is_watched healthy = true
is_watched suspect = true
is_watched _ = false

abbrev pub is_healthy : HealthStatus → Bool
is_healthy healthy = true
is_healthy _ = false

-- The codes "heartbeat_expired" and "heartbeat_delayed".
abbrev pub heartbeat_expired : ℕ
heartbeat_expired = 1

abbrev pub heartbeat_delayed : ℕ
heartbeat_delayed = 2

abbrev pub is_expired : Registry → ℕ → WorkerState → Bool
is_expired g now w =
    is_watched w.health_status && ltb g.heartbeat_timeout_seconds (now - w.last_heartbeat)

-- One turn of the loop of `expire_stale`.
unfoldable pub age_worker : Registry → ℕ → WorkerState → WorkerState
age_worker g now w =
    if is_expired g now w
    then blamed w unhealthy heartbeat_expired
    else if is_healthy w.health_status && ltb g.suspect_after_seconds (now - w.last_heartbeat)
    then blamed w suspect heartbeat_delayed
    else w

unfoldable pub age_workers : Registry → ℕ → Dict WorkerState → Dict WorkerState
unfolding age_worker
age_workers g now [] = []
age_workers g now ((i, w) ∷ d) = (i, age_worker g now w) ∷ age_workers g now d

unfoldable pub expired_ids : Registry → ℕ → Dict WorkerState → List ℕ
expired_ids g now [] = []
expired_ids g now ((i, w) ∷ d) =
    if is_expired g now w then w.worker_id ∷ expired_ids g now d else expired_ids g now d

unfoldable pub expire_stale : Registry → ℕ → Registry × List ℕ
unfolding age_workers expired_ids
expire_stale g now = (
  record g { workers = age_workers g now g.workers },
  sorted (λ i. i) (expired_ids g now g.workers),
)

-- The model registry: `same` is the comparison of two definitions.
unfoldable pub register_model :
    (ModelDefinition → ModelDefinition → Bool)
    → Dict ModelDefinition
    → ModelDefinition
    → Dict ModelDefinition × Result RegistryError Bool
register_model same d m = elim (lookup m.model_id d) [
  | none ↦ (insert m.model_id m d, ok true)
  | some current ↦
      if same current m then (insert m.model_id m d, ok true) else (d, raise value_error)
]
