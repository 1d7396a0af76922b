-- ===== src/Fixtures.antt =====
-- Small requests, models, workers and tenants for the tests.
use gpu_aware_llm_serving_pl.Common.{ℕ, true, false, none, some, List, [], ◌∷◌}
use gpu_aware_llm_serving_pl.Domain.{
  RequestRecord, TenantLimits, ModelDefinition, WorkerState, received, healthy, simulated,
  simulated_gpu,
}

abbrev pub request : ℕ → RequestRecord
request i = record {
  request_id = i;
  tenant_id = 1;
  model_id = 2;
  prompt = 5 ∷ 6 ∷ [];
  prompt_tokens = 2;
  max_new_tokens = 8;
  priority = 0;
  deadline = 100;
  stream = true;
  temperature = 0;
  created_at = 10;
  status = received;
  assigned_worker_id = none;
  attempt_count = 0;
  retry_reasons = [];
  payload_available = true;
  transition_timestamps = λ s. none;
}

abbrev pub model : ModelDefinition
model = record {
  model_id = 2;
  revision = 1;
  runtime_type = simulated;
  estimated_memory_bytes = 10;
  supported_dtypes = 1 ∷ [];
  default_dtype = 1;
  max_context_tokens = 32;
  max_batch_tokens = 64;
  load_timeout_seconds = 5;
  idle_eviction_seconds = 30;
}

abbrev pub worker : WorkerState
worker = record {
  worker_id = 3;
  device_type = simulated_gpu;
  total_memory_bytes = some 100;
  available_memory_bytes = some 100;
  resident_models = [];
  queue_depth = 0;
  active_batch_count = 0;
  max_concurrency = 1;
  health_status = healthy;
  draining = false;
  last_heartbeat = 0;
  heartbeat_sequence = 0;
  consecutive_failures = 0;
  last_error_code = none;
}

abbrev pub workers : List WorkerState
workers = worker ∷ []

abbrev pub tenant : ℕ → TenantLimits
tenant i = record {
  tenant_id = i;
  max_concurrent_requests = 1;
  max_queued_requests = 2;
  token_quota = 50;
  scheduling_weight = 1;
}
