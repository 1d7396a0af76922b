-- ===== src/Batching.antt =====
-- scheduler/request.py and scheduler/queue.py: the request of one server, and its bounded queue.
-- The prompt is a number, the messages are constructors, and a time is 0 until it is set, as in the source.
pub mod Process
pub mod Collect
pub mod Finish
pub mod Loops
pub mod Gather
mod Tests
use gpu_aware_llm_serving_pl.Common.{
  ℕ, zero, suc, ◌+◌, ◌-◌, ◌≡◌, Bool, true, false, not, ◌&&◌, ◌||◌, Option, none, some, List, [],
  ◌∷◌, ◌++◌, ltb, leb, ◌==◌, if◌then◌else◌, length, Result, ok, raise, max,
}

pub data RequestStatus : Type 0 where
  received queued running completed failed rejected timeout cancelled : RequestStatus

pub data Message : Type 0 where
  no_message scheduler_shutting_down scheduler_queue_full server_shutting_down : Message
  grace_period_expired : Message
  reason exception : ℕ → Message

-- The future a caller waits for.
pub data Future : Type 0 where
  no_future pending done : Future

pub record InferenceRequest : Type 0 where
  pub request_id : ℕ
  pub prompt : ℕ
  pub max_new_tokens : ℕ
  pub temperature : ℕ
  pub estimated_tokens : ℕ
  pub queued_at : ℕ
  pub started_at : ℕ
  pub completed_at : ℕ
  pub input_tokens : ℕ
  pub output_tokens : ℕ
  pub status : RequestStatus
  pub result_text : ℕ
  pub error_message : Message
  pub batch_size : ℕ
  pub worker_tokenization_ms : ℕ
  pub generation_ms : ℕ
  pub decoding_ms : ℕ
  pub batch_collection_ms : ℕ
  pub future : Future
  pub deadline_at : Option ℕ

abbrev pub is_passed : Option ℕ → ℕ → Bool
is_passed none now = false
is_passed (some d) now = leb d now

unfoldable pub timed_out : ℕ → ℕ → InferenceRequest → Bool
timed_out limit now r =
    is_passed r.deadline_at now || (not (r.queued_at == 0) && leb (r.queued_at + limit) now)

abbrev pub is_final : RequestStatus → Bool
is_final received = false
is_final queued = false
is_final running = false
is_final _ = true

abbrev pub is_cancelled : RequestStatus → Bool
is_cancelled cancelled = true
is_cancelled _ = false

unfoldable pub terminal : InferenceRequest → Bool
terminal r = is_final r.status

-- `a or b` on times.
abbrev pub or_time : ℕ → ℕ → ℕ
or_time zero b = b
or_time (suc a) b = suc a

abbrev pub resolved : Future → Future
resolved no_future = no_future
resolved _ = done

unfoldable pub finish : RequestStatus → Message → ℕ → InferenceRequest → InferenceRequest
finish s m now r = record r {
  status = s;
  error_message = m;
  completed_at = or_time r.completed_at now;
  future = resolved r.future;
}

unfoldable pub cancel : Message → ℕ → InferenceRequest → InferenceRequest
unfolding terminal finish
cancel m now r = if terminal r then r else finish cancelled m now r

pub data QueueError : Type 0 where
  queue_closed queue_full : QueueError

-- `none` in the queue is the sentinel of shutdown; `unfinished` is asyncio's count of tasks not done.
pub record RequestQueue : Type 0 where
  pub maximum : ℕ
  pub queue : List (Option InferenceRequest)
  pub unfinished : ℕ
  pub accepting : Bool
  pub max_observed_size : ℕ

-- `asyncio.Queue.full`: a maximum of 0 is no bound.
abbrev pub is_full : RequestQueue → Bool
is_full q = not (q.maximum == 0) && leb q.maximum (length q.queue)

unfoldable pub init_queue : ℕ → RequestQueue
init_queue maximum = record {
  maximum = maximum;
  queue = [];
  unfinished = 0;
  accepting = true;
  max_observed_size = 0;
}

abbrev pub put : RequestQueue → Option InferenceRequest → RequestQueue
put q item = record q { queue = q.queue ++ item ∷ []; unfinished = q.unfinished + 1 }

-- The request is returned with the changes that the caller sees.
unfoldable pub submit :
    RequestQueue
    → InferenceRequest
    → ℕ
    → RequestQueue × (InferenceRequest × Result QueueError (Unit {0}))
unfolding finish
submit q r now =
    let fresh = record r { future = pending } in
    let waiting = record fresh { queued_at = now; status = queued } in
    if not q.accepting
    then (q, (finish rejected scheduler_shutting_down now fresh, raise queue_closed))
    else if is_full q
    then (q, (finish rejected scheduler_queue_full now waiting, raise queue_full))
    else (
      record (put q (some waiting)) {
        max_observed_size = max q.max_observed_size (suc (length q.queue));
      },
      (waiting, ok tt),
    )

abbrev pub reject : ℕ → List (Option InferenceRequest) → List InferenceRequest
unfolding finish
reject now [] = []
reject now (none ∷ items) = reject now items
reject now (some r ∷ items) = finish rejected server_shutting_down now r ∷ reject now items

-- The requests rejected, whose number the source returns; every item drained is a task done.
unfoldable pub close : RequestQueue → ℕ → RequestQueue × List InferenceRequest
close q now =
    if q.accepting
    then (
      record q {
        accepting = false;
        queue = none ∷ [];
        unfinished = (q.unfinished - length q.queue) + 1;
      },
      reject now q.queue,
    )
    else (q, [])
