-- ===== src/Worker/Tests.antt =====
-- A worker with two requests of one model and one of another model.
use gpu_aware_llm_serving_pl.Common.{
  ℕ, ◌+◌, ◌≤◌, ◌≡◌, ◌≢◌, refl, true, false, some, List, [], ◌∷◌, ok, length, arith, count, sum_of,
  All, Result, if◌then◌else◌, ◌==◌,
}
use gpu_aware_llm_serving_pl.Common.Dict.{lookup, insert, erase}
use gpu_aware_llm_serving_pl.Common.Sort.{insort, sorted}
use gpu_aware_llm_serving_pl.Domain.{
  RequestRecord, RequestState, HealthStatus, ModelDefinition, transition, is_terminal, is_allowed,
  terminal, estimated_tokens,
}
use gpu_aware_llm_serving_pl.Fixtures.{request, model}
use gpu_aware_llm_serving_pl.Worker.{
  Worker, WorkerError, enqueue_request, enqueue_for, cancel_request, cancel_object, cancel_active,
  find_queued, remove_queued, get,
}
use gpu_aware_llm_serving_pl.Worker.Batch.{
  Begun, expire, skip_overdue, is_compatible, choose, run_selected, begin_with, begin_after,
  begin_batch, batch, settle, leave, answers, outcome, finish_for, finish_batch, RuntimeResult,
}
use gpu_aware_llm_serving_pl.Worker.Models.{
  by_last_use, choose_evictions, plan_evictions, erase_all, admit_load, reserve_load, LoadStep,
  begins,
}
use gpu_aware_llm_serving_pl.Worker.Objects.{unchanged-Later}
use gpu_aware_llm_serving_pl.Worker.Batches.{count-begin_batch, begin_batch-Fits}
use gpu_aware_llm_serving_pl.Worker.Selection.{Fits}
use gpu_aware_llm_serving_pl.Worker.Completion.{IsSettling, reply, finish_batch-begin_batch}
use gpu_aware_llm_serving_pl.Worker.Soundness.{begin_batch_not_refused}
use gpu_aware_llm_serving_pl.Worker.Loads.{Answer, reserve_load-Answer}

program : Unit {0}
unfolding lookup insert erase insort sorted transition is_terminal is_allowed enqueue_request
    enqueue_for cancel_request cancel_object cancel_active find_queued remove_queued expire
    skip_overdue is_compatible choose run_selected begin_with begin_after begin_batch settle leave
    answers outcome finish_for finish_batch by_last_use choose_evictions plan_evictions erase_all
    admit_load reserve_load
program = tt

-- The request 3 is late, and the request 4 is for another model.
abbrev objects : ℕ → RequestRecord
objects i = record (request i) {
  status = RequestState.queued;
  stream = false;
  model_id = if i == 4 then 6 else 2;
  deadline = if i == 3 then 15 else 100;
}

abbrev worker : Worker
worker = record {
  worker_id = 1;
  max_queue_depth = 8;
  max_concurrency = 1;
  max_batch_size = 2;
  max_batch_tokens = 64;
  memory_safety_reserve_bytes = 1;
  health = HealthStatus.healthy;
  draining = false;
  resident_models = 2 ∷ 6 ∷ 7 ∷ [];
  loading_models = [];
  model_definitions =
      (7, record model { model_id = 7 }) ∷ (2, model) ∷ (6, record model { model_id = 6 }) ∷ [];
  model_last_used = [];
  active_requests_by_model = [];
  active_requests = [];
  load_attempts = [];
  load_failures = [];
  reserved_model_memory_bytes = 0;
  cache_hits = 0;
  cache_misses = 0;
  cold_starts = 0;
  model_load_failures = 0;
  model_evictions = 0;
  coalesced_loads = 0;
  queue = 3 ∷ 1 ∷ 4 ∷ 2 ∷ 5 ∷ [];
  active_batch_count = 0;
  objects = objects;
}

abbrev started : Worker
started = (begin_batch worker 20).0

begin_worker : begin_batch worker 20 ≡ (started, batch 1 (1 ∷ 2 ∷ []))
unfolding program
begin_worker = refl

rest_of_queue : started.queue ≡ 4 ∷ 5 ∷ []
unfolding program
rest_of_queue = refl

late_one : (started.objects 3).status ≡ RequestState.timed_out
unfolding program
late_one = refl

count-begin_batch_example : count 5 worker.queue ≡ count 5 (1 ∷ 2 ∷ []) + count 5 started.queue
unfolding program
count-begin_batch_example = count-begin_batch worker started 20 1 5 (1 ∷ 2 ∷ []) begin_worker refl

begin_batch-Fits_example :
    (length {A = ℕ} (1 ∷ 2 ∷ []) ≤ 2)
    × (sum_of (λ k. estimated_tokens (objects k)) (1 ∷ 2 ∷ []) ≤ 64)
    × All (λ k. Fits (objects 1) 20 (objects k)) (1 ∷ 2 ∷ [])
    × All (λ k. (started.objects k).status ≡ RequestState.running) (1 ∷ 2 ∷ [])
begin_batch-Fits_example =
    begin_batch-Fits worker started 20 1 (1 ∷ 2 ∷ []) begin_worker (omega arith) (omega arith)

abbrev results : Result WorkerError (List RuntimeResult)
results =
    ok (record { text = []; output_tokens = 3 } ∷ record { text = []; output_tokens = 4 } ∷ [])

abbrev ended : Worker × Result WorkerError (List (ℕ × RuntimeResult))
ended = finish_batch started 30 1 (1 ∷ 2 ∷ []) results

all-IsSettling : All (λ k. IsSettling (started.objects k)) (1 ∷ 2 ∷ [])
unfolding program IsSettling
all-IsSettling = (refl, (refl, tt))

finish_batch-begin_batch_example :
    All (λ k. terminal (ended.0.objects k) ≡ true) (1 ∷ 2 ∷ [])
    × (ended.0.queue ≡ started.queue)
    × (ended.0.active_batch_count ≡ worker.active_batch_count)
    × (get 2 ended.0.active_requests_by_model ≡ get 2 worker.active_requests_by_model)
    × (ended.1 ≡ reply ended.0.objects (1 ∷ 2 ∷ []) (outcome false (1 ∷ 2 ∷ []) results))
unfolding program
finish_batch-begin_batch_example =
    finish_batch-begin_batch worker started 20 30 1 2 (1 ∷ 2 ∷ []) started.objects results
      begin_worker (unchanged-Later started.objects) all-IsSettling

-- A model of 30 bytes, 13 being free: the models 2 and 6 have requests, and the model 7 alone is not enough.
abbrev large : ModelDefinition
large = record model { model_id = 9; estimated_memory_bytes = 30 }

too_large :
    reserve_load worker large (some 13) ≡ (worker, LoadStep.refused WorkerError.memory_error)
unfolding program
too_large = refl

evicts_idle : (reserve_load worker large (some 25)).1 ≡ begins 1 (7 ∷ [])
unfolding program
evicts_idle = refl

reserve_load-Answer_example : Answer worker large 25 (reserve_load worker large (some 25))
reserve_load-Answer_example = reserve_load-Answer worker large 25

begin_batch_not_refused_example : (begin_batch worker 20).1 ≢ Begun.refused
unfolding program
begin_batch_not_refused_example = begin_batch_not_refused worker 20 refl (λ k l. refl)
