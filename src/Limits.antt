-- ===== src/Limits.antt =====
-- apps/gateway/limits.py: request limits, concurrency slots and the tracking of streams. Each locked
-- section is one step; waiting for the idle event is the test of its flag.
pub mod Slots
mod Tests
use gpu_aware_llm_serving_pl.Common.{
  ℕ, ◌+◌, ◌-◌, ◌≡◌, Bool, true, false, not, List, ltb, leb, ◌==◌, if◌then◌else◌, length, Result, ok,
  raise,
}

pub data LimitError : Type 0 where
  concurrency_limit_exceeded service_shutting_down runtime_error : LimitError
  empty_prompt prompt_too_long output_too_long context_window_exceeded : LimitError

pub record Limiter : Type 0 where
  pub maximum : ℕ
  pub active : ℕ

unfoldable pub acquire : Limiter → Result LimitError Limiter
acquire l =
    if leb l.maximum l.active
    then raise concurrency_limit_exceeded
    else ok (record l { active = l.active + 1 })

unfoldable pub release : Limiter → Result LimitError Limiter
release l = if l.active == 0 then raise runtime_error else ok (record l { active = l.active - 1 })

pub record Tracker : Type 0 where
  pub accepting : Bool
  pub active : ℕ
  pub idle : Bool

abbrev pub init_tracker : Tracker
init_tracker = record { accepting = true; active = 0; idle = true }

unfoldable pub start : Tracker → Result LimitError Tracker
start t =
    if not t.accepting
    then raise service_shutting_down
    else ok (record t { active = t.active + 1; idle = false })

unfoldable pub finish : Tracker → Result LimitError Tracker
finish t =
    if t.active == 0
    then raise runtime_error
    else ok (record t { active = t.active - 1; idle = if t.active - 1 == 0 then true else t.idle })

-- `close` up to its wait, and what the wait ends on: the flag, unless the time runs out first.
unfoldable pub close : Tracker → Tracker
close t = record t { accepting = false }

pub record Settings : Type 0 where
  pub max_prompt_tokens : ℕ
  pub max_new_tokens : ℕ

-- A prompt is the list of its words: white space alone has none.
unfoldable pub validate_request : List ℕ → ℕ → ℕ → ℕ → Settings → Result LimitError Bool
validate_request prompt new_tokens prompt_tokens window s =
    if length prompt == 0
    then raise empty_prompt
    else if ltb s.max_prompt_tokens prompt_tokens
    then raise prompt_too_long
    else if ltb s.max_new_tokens new_tokens
    then raise output_too_long
    else if ltb window (prompt_tokens + new_tokens)
    then raise context_window_exceeded
    else ok true
