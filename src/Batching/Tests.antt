-- ===== src/Batching/Tests.antt =====
-- A queue of two requests, a batch collected and processed.
use gpu_aware_llm_serving_pl.Common.{
  All, ℕ, ◌≡◌, refl, true, false, none, some, List, [], ◌∷◌, raise, to_nat, ◌==◌,
}
use gpu_aware_llm_serving_pl.Batching.{
  reason, is_cancelled, done, InferenceRequest, queued, cancelled, completed, no_message, pending,
  timed_out, finish, cancel, init_queue, submit, close, queue_full, terminal,
}
use gpu_aware_llm_serving_pl.Batching.Process.{
  Generation, returned, begin, interrupt, settle, settle_all, conclude, conclude_one, fail_with,
  process_batch, process_one,
}
use gpu_aware_llm_serving_pl.Batching.Collect.{
  Settings, deferring, Wait, is_compatible, consider, has_space, scan, gather, collect_batch,
}
use gpu_aware_llm_serving_pl.Batching.Finish.{is_waiting, IsOver, process_batch-IsOver}
use gpu_aware_llm_serving_pl.Batching.Gather.{
  IsBatch, IsAccounted, collect_batch-IsBatch, collect_batch-IsAccounted,
}

program : Unit {0}
unfolding timed_out finish cancel init_queue submit close begin interrupt settle settle_all conclude
    conclude_one fail_with process_batch process_one is_compatible consider has_space scan gather
    collect_batch terminal
program = tt

abbrev job : ℕ → InferenceRequest
job i = record {
  request_id = i;
  prompt = 9;
  max_new_tokens = 4;
  temperature = 0;
  estimated_tokens = 2;
  queued_at = 10;
  started_at = 0;
  completed_at = 0;
  input_tokens = 0;
  output_tokens = 0;
  status = queued;
  result_text = 0;
  error_message = no_message;
  batch_size = 1;
  worker_tokenization_ms = 0;
  generation_ms = 0;
  decoding_ms = 0;
  batch_collection_ms = 0;
  future = pending;
  deadline_at = none;
}

full : (submit (submit (init_queue 1) (job 1) 10).0 (job 2) 11).1.1 ≡ raise queue_full
unfolding program
full = refl

drained : (close (submit (init_queue 1) (job 1) 10).0 12).0.queue ≡ none ∷ []
unfolding program
drained = refl

abbrev settings : Settings
settings = record {
  request_timeout_seconds = 30;
  max_total_batch_tokens = 12;
  max_batch_size = 3;
  max_wait = 5;
}

abbrev waits : List Wait
waits =
    record { clock = 10; delivery = some (some (job 2)); after = 11 }
    ∷ record { clock = 11; delivery = some (some (job 3)); after = 12 }
    ∷ record { clock = 12; delivery = none; after = 15 }
    ∷ []

-- The third request does not fit, and is deferred.
collected :
    (collect_batch settings deferring (job 1) [] 10 (λ n. 10) waits 15).deferred ≡ job 3 ∷ []
unfolding program
collected = refl

collect_batch-IsBatch_example :
    IsBatch settings deferring
      (job 1)
      (collect_batch settings deferring (job 1) [] 10 (λ n. 10) waits 15)
collect_batch-IsBatch_example =
    collect_batch-IsBatch settings deferring (job 1) [] 10 (λ n. 10) waits 15

collect_batch-IsAccounted_example :
    IsAccounted settings deferring
      (job 1)
      (λ i. to_nat (i == 3))
      []
      (collect_batch settings deferring (job 1) [] 10 (λ n. 10) waits 15)
collect_batch-IsAccounted_example =
    collect_batch-IsAccounted settings deferring (job 1) 3 [] 10 (λ n. 10) waits 15

abbrev generation : Generation
generation = record {
  input_tokens = 2;
  output_tokens = 4;
  text = 7;
  tokenization_ms = 1;
  generation_ms = 2;
  decoding_ms = 3;
}

-- The second request leaves during the call, and keeps its status.
statuses :
    (process_batch 30 12 20
      (2 ∷ [])
      (returned (generation ∷ generation ∷ []))
      (job 1 ∷ job 2 ∷ [])).active
    ≡ record (job 1) {
      started_at = 12;
      completed_at = 20;
      input_tokens = 2;
      output_tokens = 4;
      status = completed;
      result_text = 7;
      batch_size = 2;
      worker_tokenization_ms = 1;
      generation_ms = 2;
      decoding_ms = 3;
      future = done;
    }
      ∷ record (job 2) {
        started_at = 12;
        completed_at = 20;
        input_tokens = 2;
        output_tokens = 4;
        status = cancelled;
        result_text = 7;
        error_message = reason 0;
        batch_size = 2;
        worker_tokenization_ms = 1;
        generation_ms = 2;
        decoding_ms = 3;
        future = done;
      }
      ∷ []
unfolding program
statuses = refl

no_cancel : (i : ℕ) → is_cancelled (job i).status ≡ true → is_waiting (job i).future ≡ false
no_cancel i h = cc

process_batch-IsOver_example :
    All IsOver
      (process_batch 30 12 20 (2 ∷ []) (returned (generation ∷ [])) (job 1 ∷ job 2 ∷ [])).set_aside
    × All IsOver
        (process_batch 30 12 20 (2 ∷ []) (returned (generation ∷ [])) (job 1 ∷ job 2 ∷ [])).active
process_batch-IsOver_example =
    process_batch-IsOver 30 12 20 (2 ∷ []) (returned (generation ∷ [])) (job 1 ∷ job 2 ∷ [])
      (no_cancel 1, (no_cancel 2, tt))
