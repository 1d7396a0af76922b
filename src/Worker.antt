-- ===== src/Worker.antt =====
-- apps/worker/service.py: the queue, the life cycle and the resident models of one worker. A request is an object that
-- the whole program shares: the queue holds references, and `objects` what they refer to. A lock makes each locked
-- part one step; readings of the clock, the free memory of the device and what the runtime answers are arguments.
-- The throughput, the load time and the description of the host are left out of the state.
pub mod Batch
pub mod Models
pub mod Objects
pub mod Selection
pub mod Start
pub mod Batches
pub mod Progress
pub mod Soundness
pub mod Completion
pub mod Eviction
pub mod Loads
mod Tests
use gpu_aware_llm_serving_pl.Common.{
  ℕ, ◌+◌, ◌-◌, ◌≡◌, Bool, true, false, not, ◌&&◌, ◌||◌, Option, none, some, List, [], ◌∷◌, ◌++◌,
  ltb, leb, ◌==◌, if◌then◌else◌, length, mem, min, any, Result, ok, raise,
}
use gpu_aware_llm_serving_pl.Common.Dict.{Dict, lookup, insert, erase, share}
use gpu_aware_llm_serving_pl.Domain.{
  RequestRecord, RequestState, ModelDefinition, WorkerState, DeviceType, HealthStatus, DomainError,
  transition, terminal, estimated_tokens,
}
use gpu_aware_llm_serving_pl.Registry.{Registry}
use gpu_aware_llm_serving_pl.Registry

pub data WorkerError : Type 0 where
  value_error runtime_error overflow_error memory_error key_error invalid_transition
        runtime_failure :
      WorkerError

pub record Worker : Type 0 where
  pub worker_id : ℕ
  pub max_queue_depth : ℕ
  pub max_concurrency : ℕ
  pub max_batch_size : ℕ
  pub max_batch_tokens : ℕ
  pub memory_safety_reserve_bytes : ℕ
  pub health : HealthStatus
  pub draining : Bool
  pub resident_models : List ℕ
  pub loading_models : List ℕ
  pub model_definitions : Dict ModelDefinition
  pub model_last_used : Dict ℕ
  pub active_requests_by_model : Dict ℕ
  pub active_requests : Dict ℕ
  pub load_attempts : Dict ℕ
  pub load_failures : Dict ℕ
  pub reserved_model_memory_bytes : ℕ
  pub cache_hits : ℕ
  pub cache_misses : ℕ
  pub cold_starts : ℕ
  pub model_load_failures : ℕ
  pub model_evictions : ℕ
  pub coalesced_loads : ℕ
  pub queue : List ℕ
  pub active_batch_count : ℕ
  pub objects : ℕ → RequestRecord

-- `counter[key]`, which is 0 for a key that is not there.
abbrev pub get : ℕ → Dict ℕ → ℕ
get k c = share (λ n. n) (lookup k c)

unfoldable pub init_worker : ℕ → ℕ → ℕ → ℕ → ℕ → ℕ → (ℕ → RequestRecord) → Result WorkerError Worker
init_worker id depth concurrency size tokens reserve objects =
    if (id == 0) || (min (min depth concurrency) (min size tokens) == 0)
    then raise value_error
    else ok (record {
      worker_id = id;
      max_queue_depth = depth;
      max_concurrency = concurrency;
      max_batch_size = size;
      max_batch_tokens = tokens;
      memory_safety_reserve_bytes = reserve;
      health = HealthStatus.registering;
      draining = false;
      resident_models = [];
      loading_models = [];
      model_definitions = [];
      model_last_used = [];
      active_requests_by_model = [];
      active_requests = [];
      load_attempts = [];
      load_failures = [];
      reserved_model_memory_bytes = 0;
      cache_hits = 0;
      cache_misses = 0;
      cold_starts = 0;
      model_load_failures = 0;
      model_evictions = 0;
      coalesced_loads = 0;
      queue = [];
      active_batch_count = 0;
      objects = objects;
    })

-- What `runtime.capacity` answers.
pub record Capacity : Type 0 where
  pub device_type : DeviceType
  pub total_memory_bytes : Option ℕ
  pub available_memory_bytes : Option ℕ

-- The fields that the registry sets itself have their defaults.
unfoldable pub snapshot : Worker → Capacity → ℕ → WorkerState
snapshot w capacity now = record {
  worker_id = w.worker_id;
  device_type = capacity.device_type;
  total_memory_bytes = capacity.total_memory_bytes;
  available_memory_bytes = capacity.available_memory_bytes;
  resident_models = w.resident_models;
  queue_depth = length w.queue;
  active_batch_count = w.active_batch_count;
  max_concurrency = w.max_concurrency;
  health_status = w.health;
  draining = w.draining;
  last_heartbeat = now;
  heartbeat_sequence = 0;
  consecutive_failures = 0;
  last_error_code = none;
}

abbrev pub is_stopped : HealthStatus → Bool
is_stopped HealthStatus.stopped = true
is_stopped _ = false

abbrev pub is_serving : HealthStatus → Bool
is_serving HealthStatus.healthy = true
is_serving _ = false

abbrev pub is_accepting : Worker → Bool
is_accepting w = is_serving w.health && not w.draining

unfoldable pub register : Worker → Registry → Capacity → ℕ → Worker × Registry × WorkerState
unfolding snapshot
register w g capacity now =
    let w' : Worker = record w {
      draining = if is_stopped w.health then false else w.draining;
      health = HealthStatus.healthy;
    } in
    (w', Registry.register g (snapshot w' capacity now) now, snapshot w' capacity now)

unfoldable pub heartbeat :
    Worker → Registry → Capacity → ℕ → Registry × Result WorkerError WorkerState
unfolding snapshot
heartbeat w g capacity now =
    if not (is_serving w.health)
    then (g, raise runtime_error)
    else let (g', answer) = Registry.heartbeat g (snapshot w capacity now) now in
      (
        g',
        elim answer [
          | ok x ↦ ok (snapshot w capacity now)
          | raise Registry.RegistryError.key_error ↦ raise key_error
          | raise e ↦ raise runtime_error
        ],
      )

-- The object takes the value.
abbrev pub put : ℕ → RequestRecord → (ℕ → RequestRecord) → ℕ → RequestRecord
put i r objects j = if i == j then r else objects j

unfoldable pub enqueue_for :
    Worker → ℕ → Result DomainError RequestRecord → Worker × Result WorkerError Bool
enqueue_for w i (raise e) = (w, raise invalid_transition)
enqueue_for w i (ok r) =
    (record w { objects = put i r w.objects; queue = w.queue ++ i ∷ [] }, ok true)

abbrev pub is_assigned : RequestState → Bool
is_assigned RequestState.assigned = true
is_assigned _ = false

unfoldable pub enqueue_request : Worker → ℕ → ℕ → Worker × Result WorkerError Bool
unfolding enqueue_for
enqueue_request w i now =
    let r = w.objects i in
    if not (is_accepting w)
    then (w, raise runtime_error)
    else if not (mem r.model_id w.resident_models)
    then (w, raise runtime_error)
    else if leb w.max_queue_depth (length w.queue)
    then (w, raise overflow_error)
    else if ltb w.max_batch_tokens (estimated_tokens r)
    then (w, raise overflow_error)
    else if not (is_assigned r.status)
    then (w, raise value_error)
    else enqueue_for w i (transition r RequestState.queued now)

-- The first queued object with the identifier.
unfoldable pub find_queued : (ℕ → RequestRecord) → ℕ → List ℕ → Option ℕ
find_queued objects id [] = none
find_queued objects id (i ∷ q) =
    if (objects i).request_id == id then some i else find_queued objects id q

unfoldable pub remove_queued : (ℕ → RequestRecord) → ℕ → List ℕ → List ℕ
remove_queued objects id [] = []
remove_queued objects id (i ∷ q) =
    if (objects i).request_id == id then q else i ∷ remove_queued objects id q

-- A transition of an object to CANCELLED, and the answer of `cancel_request`.
unfoldable pub cancel_object : Worker → ℕ → ℕ → Worker × Result WorkerError Bool
cancel_object w i now = elim (transition (w.objects i) RequestState.cancelled now) [
  | raise e ↦ (w, raise invalid_transition)
  | ok r ↦ (record w { objects = put i r w.objects }, ok true)
]

-- `cancel_request` for an identifier that is not in the queue.
unfoldable pub cancel_active : Worker → ℕ → Option ℕ → Worker × Result WorkerError Bool
unfolding cancel_object
cancel_active w now none = (w, ok false)
cancel_active w now (some i) =
    if terminal (w.objects i) then (w, ok false) else cancel_object w i now

unfoldable pub cancel_request : Worker → ℕ → ℕ → Worker × Result WorkerError Bool
unfolding find_queued remove_queued cancel_object cancel_active
cancel_request w id now = elim (find_queued w.objects id w.queue) [
  | some i ↦ cancel_object (record w { queue = remove_queued w.objects id w.queue }) i now
  | none ↦ cancel_active w now (lookup id w.active_requests)
]

unfoldable pub drain : Worker → Worker × Result WorkerError Bool
drain w =
    if is_stopped w.health
    then (w, raise runtime_error)
    else (record w { draining = true }, ok true)

-- The loop of `shutdown`: it stops at an object that does not take the transition.
unfoldable pub fail_queue : (ℕ → RequestRecord) → ℕ → List ℕ → (ℕ → RequestRecord) × List ℕ × Bool
fail_queue objects now [] = (objects, [], true)
fail_queue objects now (i ∷ q) = elim (transition (objects i) RequestState.failed now) [
  | raise e ↦ (objects, q, false)
  | ok r ↦ fail_queue (put i r objects) now q
]

-- The registry forgets the worker also where the runtime, which answers `unloads`, fails to unload a model.
unfoldable pub shutdown : Worker → Registry → ℕ → Bool → Worker × Registry × Result WorkerError Bool
unfolding fail_queue
shutdown w g now unloads =
    let (objects, queue, done) = fail_queue w.objects now w.queue in
    let w' : Worker = record w { draining = true; objects = objects; queue = queue } in
    if done
    then (
      record w' { resident_models = []; health = HealthStatus.stopped },
      Registry.unregister g w.worker_id,
      if unloads then ok true else raise runtime_failure,
    )
    else (w', g, raise invalid_transition)
