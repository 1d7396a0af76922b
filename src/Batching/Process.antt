-- ===== src/Batching/Process.antt =====
-- scheduler/no_batching.py and `process_batch` of scheduler/dynamic_batch.py: one call of the model.
-- The clock is read before the call (`now`) and after it (`later`). What happens in the worker's thread is an
-- argument: the outcome of the call, and the requests that are cancelled while it runs.
use gpu_aware_llm_serving_pl.Common.{
  ◌==◌, ℕ, Bool, true, false, not, List, [], ◌∷◌, if◌then◌else◌, length, keep, map, mem,
}
use gpu_aware_llm_serving_pl.Batching.{
  InferenceRequest, RequestStatus, running, failed, timeout, cancelled, completed, exception,
  grace_period_expired, no_message, reason, timed_out, is_cancelled, or_time, finish, cancel,
}

pub record Generation : Type 0 where
  pub input_tokens : ℕ
  pub output_tokens : ℕ
  pub text : ℕ
  pub tokenization_ms : ℕ
  pub generation_ms : ℕ
  pub decoding_ms : ℕ

-- The end of `asyncio.to_thread(worker.generate...)`.
pub data Outcome (A : Type 0) : Type 0 where
  returned : A → Outcome A
  raised : ℕ → Outcome A
  task_cancelled : Outcome A

abbrev pub is_running_status : RequestStatus → Bool
is_running_status running = true
is_running_status _ = false

abbrev pub is_running : InferenceRequest → Bool
is_running r = is_running_status r.status

-- The checks before the call.
unfoldable pub begin : ℕ → ℕ → InferenceRequest → InferenceRequest
unfolding timed_out finish
begin limit now r =
    if is_cancelled r.status
    then r
    else if timed_out limit now r
    then finish timeout no_message now r
    else record r { status = running; started_at = now; batch_size = 0 }

-- The client of a request goes away during the call.
unfoldable pub interrupt : List ℕ → ℕ → InferenceRequest → InferenceRequest
unfolding cancel
interrupt leaving later r = if mem r.request_id leaving then cancel (reason 0) later r else r

unfoldable pub settle : ℕ → ℕ → Generation → InferenceRequest → InferenceRequest
unfolding timed_out finish
settle limit later g r =
    let status =
      if is_cancelled r.status
      then cancelled
      else if timed_out limit later r
      then timeout
      else completed in
    finish status r.error_message later (record r {
      completed_at = or_time r.completed_at later;
      input_tokens = g.input_tokens;
      output_tokens = g.output_tokens;
      result_text = g.text;
      worker_tokenization_ms = g.tokenization_ms;
      generation_ms = g.generation_ms;
      decoding_ms = g.decoding_ms;
      status = status;
    })

unfoldable pub fail_with : ℕ → ℕ → InferenceRequest → InferenceRequest
unfolding finish
fail_with later e r = finish failed (exception e) later (record r { completed_at = later })

-- `zip(active, results, strict=True)`: the requests settled so far, and whether the lengths differ.
unfoldable pub settle_all :
    ℕ → ℕ → List Generation → List InferenceRequest → List InferenceRequest × Bool
unfolding settle
settle_all limit later [] [] = ([], false)
settle_all limit later [] (r ∷ rs) = (r ∷ rs, true)
settle_all limit later (g ∷ gs) [] = ([], true)
settle_all limit later (g ∷ gs) (r ∷ rs) =
    let (settled, uneven) = settle_all limit later gs rs in
    (settle limit later g r ∷ settled, uneven)

-- The number of the error that a strict zip raises.
abbrev pub uneven_zip : ℕ
uneven_zip = 0

-- An uneven zip fails every active request, those already settled included.
unfoldable pub conclude :
    ℕ → ℕ → Outcome (List Generation) → List InferenceRequest → List InferenceRequest
unfolding settle_all fail_with finish
conclude limit later (returned gs) active =
    let (settled, uneven) = settle_all limit later gs active in
    if uneven then map (fail_with later uneven_zip) settled else settled
conclude limit later (raised e) active = map (fail_with later e) active
conclude limit later task_cancelled active = map (finish failed grace_period_expired later) active

pub record Processed : Type 0 where
  pub set_aside : List InferenceRequest
  pub active : List InferenceRequest
  pub invoked : Bool

unfoldable pub process_batch :
    ℕ → ℕ → ℕ → List ℕ → Outcome (List Generation) → List InferenceRequest → Processed
unfolding begin interrupt conclude
process_batch limit now later leaving outcome batch =
    let begun = map (begin limit now) batch in
    let active = keep is_running begun in
    record {
      set_aside = keep (λ r. not (is_running r)) begun;
      active =
          conclude limit later outcome
            (map (λ r. interrupt leaving later (record r { batch_size = length active })) active);
      invoked = not (length active == 0);
    }

-- The same for a single request.
unfoldable pub conclude_one : ℕ → ℕ → Outcome Generation → InferenceRequest → InferenceRequest
unfolding settle fail_with finish
conclude_one limit later (returned g) r = settle limit later g r
conclude_one limit later (raised e) r = fail_with later e r
conclude_one limit later task_cancelled r = finish failed grace_period_expired later r

unfoldable pub process_one :
    ℕ → ℕ → ℕ → List ℕ → Outcome Generation → InferenceRequest → InferenceRequest
unfolding begin interrupt conclude_one
process_one limit now later leaving outcome r =
    let begun = begin limit now r in
    if is_running begun
    then conclude_one limit later outcome
        (interrupt leaving later (record begun { batch_size = 1; batch_collection_ms = 0 }))
    else begun
