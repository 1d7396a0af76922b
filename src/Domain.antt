-- ===== src/Domain.antt =====
-- serving_platform/domain/models.py: requests, models, workers and tenants. Identifiers are strings of
-- which the program uses equality, order and emptiness: the model numbers them in their order, the
-- empty string is 0. A prompt is the list of its words. Times are ticks of the clock.
pub mod Lifecycle
mod Tests
use gpu_aware_llm_serving_pl.Common.{
  ℕ, ◌+◌, ◌≡◌, Bool, true, false, not, ◌&&◌, ◌||◌, Option, none, some, List, ltb, leb, ◌==◌,
  if◌then◌else◌, length, mem, min, Result, ok, raise,
}

pub data DeviceType : Type 0 where
  cpu cuda simulated_gpu : DeviceType

pub data HealthStatus : Type 0 where
  registering healthy suspect unhealthy recovering stopped : HealthStatus

pub data RuntimeType : Type 0 where
  huggingface simulated : RuntimeType

pub data RequestState : Type 0 where
  received validated admitted queued assigned prefill decode running streaming : RequestState
  completed rejected timed_out cancelled failed : RequestState

-- `state in TERMINAL_REQUEST_STATES`
unfoldable pub is_terminal : RequestState → Bool
is_terminal completed = true
is_terminal rejected = true
is_terminal timed_out = true
is_terminal cancelled = true
is_terminal failed = true
is_terminal _ = false

-- `target in ALLOWED_REQUEST_TRANSITIONS[state]`
unfoldable pub is_allowed : RequestState → RequestState → Bool
is_allowed received validated = true
is_allowed received rejected = true
is_allowed received cancelled = true
is_allowed validated admitted = true
is_allowed validated rejected = true
is_allowed validated timed_out = true
is_allowed validated cancelled = true
is_allowed admitted queued = true
is_allowed admitted assigned = true
is_allowed admitted rejected = true
is_allowed admitted timed_out = true
is_allowed admitted cancelled = true
is_allowed queued assigned = true
is_allowed queued prefill = true
is_allowed queued running = true
is_allowed queued rejected = true
is_allowed queued timed_out = true
is_allowed queued cancelled = true
is_allowed queued failed = true
is_allowed assigned queued = true
is_allowed assigned prefill = true
is_allowed assigned running = true
is_allowed assigned timed_out = true
is_allowed assigned cancelled = true
is_allowed assigned failed = true
is_allowed running streaming = true
is_allowed running completed = true
is_allowed running timed_out = true
is_allowed running cancelled = true
is_allowed running failed = true
is_allowed prefill decode = true
is_allowed prefill completed = true
is_allowed prefill timed_out = true
is_allowed prefill cancelled = true
is_allowed prefill failed = true
is_allowed decode completed = true
is_allowed decode timed_out = true
is_allowed decode cancelled = true
is_allowed decode failed = true
is_allowed streaming completed = true
is_allowed streaming timed_out = true
is_allowed streaming cancelled = true
is_allowed streaming failed = true
is_allowed _ _ = false

-- The position of a state in the enumeration: states are equal if their positions are.
abbrev pub position : RequestState → ℕ
position received = 0
position validated = 1
position admitted = 2
position queued = 3
position assigned = 4
position prefill = 5
position decode = 6
position running = 7
position streaming = 8
position completed = 9
position rejected = 10
position timed_out = 11
position cancelled = 12
position failed = 13

pub data DomainError : Type 0 where
  value_error invalid_transition : DomainError

-- The reasons that the program appends to `retry_reasons`.
pub data RetryReason : Type 0 where
  worker_lost_after_execution_started request_payload_unavailable_after_restart : RetryReason
  deadline_exhausted retry_budget_exhausted : RetryReason
  assigned_worker_heartbeat_expired global_retry_queue_unavailable : RetryReason

pub record RequestRecord : Type 0 where
  pub request_id : ℕ
  pub tenant_id : ℕ
  pub model_id : ℕ
  pub prompt : List ℕ
  pub prompt_tokens : ℕ
  pub max_new_tokens : ℕ
  pub priority : ℕ
  pub deadline : ℕ
  pub stream : Bool
  pub temperature : ℕ
  pub created_at : ℕ
  pub status : RequestState
  pub assigned_worker_id : Option ℕ
  pub attempt_count : ℕ
  pub retry_reasons : List RetryReason
  pub payload_available : Bool
  pub transition_timestamps : RequestState → Option ℕ

-- `d[state] = at` on the dictionary of timestamps.
abbrev pub stamp : (RequestState → Option ℕ) → RequestState → ℕ → RequestState → Option ℕ
stamp d state at s = if position state == position s then some at else d s

unfoldable pub init_request : RequestRecord → Result DomainError RequestRecord
init_request r =
    if (r.request_id == 0) || (r.tenant_id == 0) || (r.model_id == 0)
    then raise value_error
    else if (length r.prompt == 0) || (r.max_new_tokens == 0)
    then raise value_error
    else elim (r.transition_timestamps r.status) [
      | some at ↦ ok r
      | none ↦
          ok (record r {
            transition_timestamps = stamp r.transition_timestamps r.status r.created_at;
          })
    ]

abbrev pub terminal : RequestRecord → Bool
terminal r = is_terminal r.status

abbrev pub estimated_tokens : RequestRecord → ℕ
estimated_tokens r = r.prompt_tokens + r.max_new_tokens

-- The transition is made at the time `at`.
unfoldable pub transition : RequestRecord → RequestState → ℕ → Result DomainError RequestRecord
transition r target at =
    if is_allowed r.status target
    then ok (record r {
      status = target;
      transition_timestamps = stamp r.transition_timestamps target at;
    })
    else raise invalid_transition

pub record ModelDefinition : Type 0 where
  pub model_id : ℕ
  pub revision : ℕ
  pub runtime_type : RuntimeType
  pub estimated_memory_bytes : ℕ
  pub supported_dtypes : List ℕ
  pub default_dtype : ℕ
  pub max_context_tokens : ℕ
  pub max_batch_tokens : ℕ
  pub load_timeout_seconds : ℕ
  pub idle_eviction_seconds : ℕ

unfoldable pub init_model : ModelDefinition → Result DomainError ModelDefinition
init_model m =
    if (m.model_id == 0) || (m.revision == 0)
    then raise value_error
    else if not (mem m.default_dtype m.supported_dtypes)
    then raise value_error
    else if min (min m.estimated_memory_bytes m.max_context_tokens) m.max_batch_tokens == 0
    then raise value_error
    else ok m

pub record WorkerState : Type 0 where
  pub worker_id : ℕ
  pub device_type : DeviceType
  pub total_memory_bytes : Option ℕ
  pub available_memory_bytes : Option ℕ
  pub resident_models : List ℕ
  pub queue_depth : ℕ
  pub active_batch_count : ℕ
  pub max_concurrency : ℕ
  pub health_status : HealthStatus
  pub draining : Bool
  pub last_heartbeat : ℕ
  pub heartbeat_sequence : ℕ
  pub consecutive_failures : ℕ
  pub last_error_code : Option ℕ

-- Both memory sizes are known or neither is, and what is free is a part of the whole.
abbrev pub is_memory : Option ℕ → Option ℕ → Bool
is_memory none none = true
is_memory (some total) (some available) = leb available total
is_memory _ _ = false

-- Negative numbers are not in the model.
unfoldable pub init_worker_state : WorkerState → Result DomainError WorkerState
init_worker_state w =
    if (w.worker_id == 0)
      || not (is_memory w.total_memory_bytes w.available_memory_bytes)
      || (w.max_concurrency == 0)
    then raise value_error
    else ok w

pub record TenantLimits : Type 0 where
  pub tenant_id : ℕ
  pub max_concurrent_requests : ℕ
  pub max_queued_requests : ℕ
  pub token_quota : ℕ
  pub scheduling_weight : ℕ

unfoldable pub init_tenant : TenantLimits → Result DomainError TenantLimits
init_tenant t =
    if (t.tenant_id == 0)
      || (min (min t.max_concurrent_requests t.max_queued_requests)
            (min t.token_quota t.scheduling_weight)
          == 0)
    then raise value_error
    else ok t
