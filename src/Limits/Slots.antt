-- ===== src/Limits/Slots.antt =====
-- Slots and streams of apps/gateway/limits.py under any interleaving of their tasks.
use gpu_aware_llm_serving_pl.Common.{
  ℕ, ◌+◌, ◌-◌, ◌≤◌, ◌≡◌, ◌≢◌, ◌↔◌, refl, true, false, List, [], ◌∷◌, ok, raise, arith,
}
use gpu_aware_llm_serving_pl.Limits.{
  Limiter, Tracker, Settings, acquire, release, start, finish, close, init_tracker,
  validate_request, service_shutting_down,
}

-- A slot is asked for by a task that starts, and given back by one that holds a slot.
pub data Event : Type 0 where
  enters leaves : Event

-- The limiter with the number of tasks that hold a slot; a refused task holds none.
unfoldable pub slot : Event → Limiter × ℕ → Limiter × ℕ
slot enters (l, held) = elim (acquire l) [ ok l' ↦ (l', held + 1) | raise e ↦ (l, held) ]
slot leaves (l, held) = elim (release l) [ ok l' ↦ (l', held - 1) | raise e ↦ (l, held) ]

unfoldable pub slots : List Event → Limiter × ℕ → Limiter × ℕ
unfolding slot
slots [] s = s
slots (k ∷ es) s = slots es (slot k s)

-- The limiter counts the slots that are held, and they are within its maximum.
abbrev pub IsCounted : ℕ → Limiter × ℕ → Type 0
IsCounted n (l, held) = (l.active ≡ held) × (held ≤ n) × (l.maximum ≡ n)

slot-IsCounted : (n : ℕ) (k : Event) (s : Limiter × ℕ) → IsCounted n s → IsCounted n (slot k s)
unfolding slot acquire release
slot-IsCounted n enters (l, held) h = ground arith
slot-IsCounted n leaves (l, held) h = ground arith

-- Under any sequence of tasks that enter and leave, the limiter counts the tasks that hold a slot, and
-- they are never more than the maximum, which does not change.
pub slots-IsCounted :
    (n : ℕ) (es : List Event) (s : Limiter × ℕ) → IsCounted n s → IsCounted n (slots es s)
unfolding slots
slots-IsCounted n [] s h = h
slots-IsCounted n (k ∷ es) s h = slots-IsCounted n es (slot k s) (slot-IsCounted n k s h)

pub data Task : Type 0 where
  starts finishes closes : Task

unfoldable pub step : Task → Tracker → Tracker
unfolding start finish close
step starts t = elim (start t) [ ok t' ↦ t' | raise e ↦ t ]
step finishes t = elim (finish t) [ ok t' ↦ t' | raise e ↦ t ]
step closes t = close t

unfoldable pub run : List Task → Tracker → Tracker
unfolding step
run [] t = t
run (k ∷ ks) t = run ks (step k t)

abbrev IsIdle : Tracker → Type 0
IsIdle t = (t.idle ≡ true) ↔ (t.active ≡ 0)

step-IsIdle : (k : Task) (t : Tracker) → IsIdle t → IsIdle (step k t)
unfolding step
step-IsIdle starts t h = ground arith
step-IsIdle finishes t h = ground arith
step-IsIdle closes t h = h

run-IsIdle : (ks : List Task) (t : Tracker) → IsIdle t → IsIdle (run ks t)
unfolding run
run-IsIdle [] t h = h
run-IsIdle (k ∷ ks) t h = run-IsIdle ks (step k t) (step-IsIdle k t h)

-- The idle event on which a shutdown waits is set exactly while no stream is active, whatever streams
-- started and finished.
pub run-init_tracker-IsIdle :
    (ks : List Task) → ((run ks init_tracker).idle ≡ true) ↔ ((run ks init_tracker).active ≡ 0)
run-init_tracker-IsIdle ks = run-IsIdle ks init_tracker (ground arith)

step_closed :
    (k : Task) (t : Tracker)
    → t.accepting ≡ false
    → ((step k t).accepting ≡ false) × ((step k t).active ≤ t.active)
unfolding step
step_closed starts t h = ground arith
step_closed finishes t h = ground arith
step_closed closes t h = (refl, omega arith)

run_closed :
    (ks : List Task) (t : Tracker)
    → t.accepting ≡ false
    → ((run ks t).accepting ≡ false) × ((run ks t).active ≤ t.active)
unfolding run
run_closed [] t h = (h, omega arith)
run_closed (k ∷ ks) t h =
    let (shut, fewer) = step_closed k t h in
    let (shut', fewer') = run_closed ks (step k t) shut in (shut', omega (arith, fewer, fewer'))

-- After a close no stream is ever accepted again, so the number of active streams never grows.
pub run-close :
    (ks : List Task) (t : Tracker)
    → ((run ks (close t)).active ≤ t.active)
      × (start (run ks (close t)) ≡ raise service_shutting_down)
unfolding close start
run-close ks t =
    let (shut, fewer) = run_closed ks (record t { accepting = false }) refl in
    (fewer, ground (arith, shut))

-- A request is accepted exactly when its prompt has a word and its tokens fit the prompt limit, the
-- output limit and, together, the context window.
pub validate_request_iff :
    (prompt : List ℕ) (new_tokens prompt_tokens window : ℕ) (s : Settings)
    → (validate_request prompt new_tokens prompt_tokens window s ≡ ok true) ↔ (
        (prompt ≢ [])
        × (prompt_tokens ≤ s.max_prompt_tokens)
        × (new_tokens ≤ s.max_new_tokens)
        × (prompt_tokens + new_tokens ≤ window))
unfolding validate_request
validate_request_iff [] new_tokens prompt_tokens window s = ground arith
validate_request_iff (w ∷ ws) new_tokens prompt_tokens window s = ground arith
