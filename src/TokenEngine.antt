-- ===== src/TokenEngine.antt =====
-- inference/token_types.py and the sequence life cycle of inference/token_engine.py.
-- The backend is not modelled: the tokens it yields are arguments, and the sequences it is told to release are recorded,
-- with an argument for whether `release_sequence` raises. What `shutdown` does after its loop is left out.
-- The prefix cache, the batches and the event loop are left out; floats are in thousandths.
pub mod Ending
pub mod Owners
mod Tests
use gpu_aware_llm_serving_pl.Common.{
  ℕ, ◌+◌, ◌≡◌, Bool, true, false, not, ◌&&◌, ◌||◌, Option, none, some, List, [], ◌∷◌, ◌++◌, ltb,
  leb, ◌==◌, if◌then◌else◌, length, mem, distinct, Result, ok, raise, pos,
}
use gpu_aware_llm_serving_pl.Common.Dict.{Dict, lookup, insert, erase, has, size}
use gpu_aware_llm_serving_pl.KvCache.{Allocator, KvError, capacity_error, allocate, release}

pub data SequencePhase : Type 0 where
  queued prefill decode completed cancelled timed_out failed : SequencePhase

pub data FinishReason : Type 0 where
  eos stop length_reached cancelled_reason timeout_reason failed_reason : FinishReason

pub record SamplingParameters : Type 0 where
  pub max_new_tokens : ℕ
  pub temperature : ℕ
  pub top_p : ℕ
  pub stop_token_ids : List ℕ

pub data EngineError : Type 0 where
  invalid_value engine_shut_down engine_capacity backend_failure : EngineError
  kv_error : KvError → EngineError

-- `SamplingParameters.__post_init__`; negative numbers are not in the model.
unfoldable pub init_sampling : ℕ → ℕ → ℕ → List ℕ → Result EngineError SamplingParameters
init_sampling new temperature top_p stops =
    if (new == 0) || not (ltb 0 top_p && leb top_p 1000)
    then raise invalid_value
    else if ltb 32 (length stops) || not (distinct stops)
    then raise invalid_value
    else ok (record {
      max_new_tokens = new;
      temperature = temperature;
      top_p = top_p;
      stop_token_ids = stops;
    })

pub data Event : Type 0 where
  generated : ℕ → Event
  generation_complete : FinishReason → ℕ → ℕ → Event
  sequence_failure : ℕ → Event

-- `SequenceState` and `_ScheduledSequence`, without the timings.
pub record Sequence : Type 0 where
  pub request_id : ℕ
  pub prompt : ℕ
  pub sampling : SamplingParameters
  pub deadline : ℕ
  pub phase : SequencePhase
  pub prompt_token_ids : List ℕ
  pub generated_token_ids : List ℕ
  pub kv_block_ids : List ℕ
  pub created_at : ℕ
  pub cancellation : Bool
  pub events : List Event
  pub finished : Bool
  pub backend_created : Bool

abbrev pub is_terminal : SequencePhase → Bool
is_terminal queued = false
is_terminal prefill = false
is_terminal decode = false
is_terminal _ = true

pub record Engine : Type 0 where
  pub max_active_sequences : ℕ
  pub kv_allocator : Allocator
  pub active : Dict Sequence
  pub finished : Dict Sequence
  pub released : List ℕ
  pub closed : Bool

unfoldable pub active_sequence_count : Engine → ℕ
active_sequence_count e = size e.active

-- A capacity error of the allocator is the engine's own; any other goes through.
abbrev pub engine_error : KvError → EngineError
engine_error capacity_error = engine_capacity
engine_error x = kv_error x

unfoldable pub scheduled : ℕ → ℕ → SamplingParameters → ℕ → List ℕ → ℕ → Sequence
scheduled id prompt sampling deadline blocks now = record {
  request_id = id;
  prompt = prompt;
  sampling = sampling;
  deadline = deadline;
  phase = queued;
  prompt_token_ids = [];
  generated_token_ids = [];
  kv_block_ids = blocks;
  created_at = now;
  cancellation = false;
  events = [];
  finished = false;
  backend_created = false;
}

-- The end of `reserve`, with the allocator's answer.
unfoldable pub with_blocks :
    Engine
    → ℕ
    → ℕ
    → SamplingParameters
    → ℕ
    → ℕ
    → Allocator × Result KvError (List ℕ)
    → Engine × Result EngineError (Unit {0})
unfolding scheduled
with_blocks e id prompt sampling deadline now (allocator, raise x) =
    (record e { kv_allocator = allocator }, raise (engine_error x))
with_blocks e id prompt sampling deadline now (allocator, ok blocks) = (
  record e {
    kv_allocator = allocator;
    active = insert id (scheduled id prompt sampling deadline blocks now) e.active;
  },
  ok tt,
)

unfoldable pub reserve :
    Engine → ℕ → ℕ → SamplingParameters → ℕ → ℕ → ℕ → Engine × Result EngineError (Unit {0})
unfolding with_blocks
reserve e id prompt sampling deadline tokens now =
    if e.closed
    then (e, raise engine_shut_down)
    else if has id e.active || has id e.finished
    then (e, raise invalid_value)
    else if leb e.max_active_sequences (size e.active)
    then (e, raise engine_capacity)
    else with_blocks e id prompt sampling deadline now
        (allocate e.kv_allocator id (pos (tokens + sampling.max_new_tokens)))

unfoldable pub cancel : Engine → ℕ → Engine × Bool
cancel e id = elim (lookup id e.active) [
  | none ↦ (e, false)
  | some s ↦
      if is_terminal s.phase
      then (e, false)
      else (record e { active = insert id (record s { cancellation = true }) e.active }, true)
]

unfoldable pub phase : Engine → ℕ → Option SequencePhase
phase e id = elim (lookup id e.active) [ none ↦ none | some s ↦ some s.phase ]

unfoldable pub check_interruption : ℕ → Sequence → Option FinishReason
check_interruption now s =
    if s.cancellation
    then some cancelled_reason
    else if leb s.deadline now
    then some timeout_reason
    else none

abbrev pub phase_for : FinishReason → SequencePhase
phase_for cancelled_reason = cancelled
phase_for timeout_reason = timed_out
phase_for failed_reason = failed
phase_for _ = completed

-- Where `_complete` and `_fail` pop the sequence from `_active`.
unfoldable pub finish : Engine → Sequence → Event → Engine
finish e s event = record e {
  active = erase s.request_id e.active;
  finished =
      insert s.request_id (record s { events = s.events ++ event ∷ []; finished = true })
        e.finished;
}

-- The allocator lets go of the sequence; where it raises, the sequence stays active.
unfoldable pub release_blocks_of :
    Engine
    → Sequence
    → Event
    → Allocator × Result KvError Bool
    → Engine × Result EngineError (Unit {0})
unfolding finish
release_blocks_of e s event (allocator, raise x) = (
  record e { kv_allocator = allocator; active = insert s.request_id s e.active },
  raise (kv_error x),
)
release_blocks_of e s event (allocator, ok _) =
    (finish (record e { kv_allocator = allocator }) s event, ok tt)

-- What `_complete` and `_fail` share: the sequence gets its phase, the backend is told to release it and may
-- raise, which leaves it active with the new phase, and then the allocator lets go of it. `backend` says of
-- which sequences `release_sequence` raises.
unfoldable pub retire :
    (ℕ → Bool) → Engine → Sequence → SequencePhase → Event → Engine × Result EngineError (Unit {0})
unfolding release_blocks_of
retire backend e s p event =
    if s.backend_created && backend s.request_id
    then (
      record e { active = insert s.request_id (record s { phase = p }) e.active },
      raise backend_failure,
    )
    else release_blocks_of
        (record e {
          released = if s.backend_created then s.request_id ∷ e.released else e.released;
        })
        (record s { phase = p; backend_created = false }) event
        (release e.kv_allocator s.request_id)

unfoldable pub complete :
    (ℕ → Bool) → Engine → Sequence → FinishReason → Engine × Result EngineError (Unit {0})
unfolding retire
complete backend e s reason =
    if has s.request_id e.active
    then retire backend e s (phase_for reason)
        (generation_complete reason (length s.prompt_token_ids) (length s.generated_token_ids))
    else (e, ok tt)

unfoldable pub fail : (ℕ → Bool) → Engine → Sequence → ℕ → Engine × Result EngineError (Unit {0})
unfolding retire
fail backend e s error =
    if has s.request_id e.active
    then retire backend e s failed (sequence_failure error)
    else (e, ok tt)

-- The sequence object changes where it is kept.
abbrev pub store : Engine → Sequence → Engine
store e s =
    if has s.request_id e.active
    then record e { active = insert s.request_id s e.active }
    else if has s.request_id e.finished
    then record e { finished = insert s.request_id s e.finished }
    else e

unfoldable pub accept_token :
    (ℕ → Bool) → Engine → Sequence → ℕ → ℕ → List ℕ → Engine × Result EngineError (Unit {0})
unfolding check_interruption complete
accept_token backend e s token now eos_ids = elim (check_interruption now s) [
  | some reason ↦ complete backend e s reason
  | none ↦
      if mem token eos_ids
      then complete backend e s eos
      else if mem token s.sampling.stop_token_ids
      then complete backend e s stop
      else let s' = record s {
        phase = decode;
        generated_token_ids = s.generated_token_ids ++ token ∷ [];
        events = s.events ++ generated token ∷ [];
      } in
        if leb s.sampling.max_new_tokens (length s'.generated_token_ids)
        then complete backend e s' length_reached
        else (store e s', ok tt)
]

-- The loop of `_finish_interrupted` over the sequences that were active at its start; it ends where one raises.
unfoldable pub finish_interrupted :
    (ℕ → Bool) → ℕ → Dict Sequence → Engine → Engine × Result EngineError (Unit {0})
unfolding check_interruption complete
finish_interrupted backend now [] e = (e, ok tt)
finish_interrupted backend now ((id, s) ∷ d) e = elim (check_interruption now s) [
  | none ↦ finish_interrupted backend now d e
  | some reason ↦
      let (e', done) = complete backend e s reason in
      elim done as (λ r. Engine × Result EngineError (Unit {0})) [
        | raise x ↦ (e', raise x)
        | ok _ ↦ finish_interrupted backend now d e'
      ]
]

-- The loop of `shutdown` that completes the active sequences; it ends where one raises.
unfoldable pub complete_all :
    (ℕ → Bool) → Dict Sequence → Engine → Engine × Result EngineError (Unit {0})
unfolding complete
complete_all backend [] e = (e, ok tt)
complete_all backend ((id, s) ∷ d) e =
    let (e', done) = complete backend e s cancelled_reason in
    elim done as (λ r. Engine × Result EngineError (Unit {0})) [
      | raise x ↦ (e', raise x)
      | ok _ ↦ complete_all backend d e'
    ]

-- The loop of `shutdown` that sets every cancellation event.
unfoldable pub cancel_all : Dict Sequence → Dict Sequence
cancel_all [] = []
cancel_all ((id, s) ∷ d) = (id, record s { cancellation = true }) ∷ cancel_all d

-- `shutdown` of an engine whose scheduler was never started; a second call does nothing.
unfoldable pub shutdown : (ℕ → Bool) → Engine → Engine × Result EngineError (Unit {0})
unfolding complete_all cancel_all
shutdown backend e =
    if e.closed
    then (e, ok tt)
    else let stopped = cancel_all e.active in
      complete_all backend stopped (record e { closed = true; active = stopped })
