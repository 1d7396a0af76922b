-- ===== src/Limits/Tests.antt =====
-- Slots and streams on short runs.
use gpu_aware_llm_serving_pl.Common.{
  ℕ, ◌≡◌, ◌≤◌, ◌↔◌, ◌+◌, ◌≢◌, refl, List, [], ◌∷◌, ok, raise, true, arith,
}
use gpu_aware_llm_serving_pl.Limits.{
  Limiter, acquire, release, init_tracker, validate_request, prompt_too_long,
}
use gpu_aware_llm_serving_pl.Limits.Slots.{
  Event, enters, leaves, slots, IsCounted, slots-IsCounted, Task, starts, finishes, closes, run,
  run-init_tracker-IsIdle, validate_request_iff,
}

abbrev limiter : Limiter
limiter = record { maximum = 2; active = 0 }

abbrev events : List Event
events = enters ∷ enters ∷ enters ∷ leaves ∷ enters ∷ []

third_refused : slots events (limiter, 0) ≡ (record { maximum = 2; active = 2 }, 2)
unfolding slots acquire release
third_refused = refl

too_long :
    validate_request (1 ∷ []) 5 9 100 (record { max_prompt_tokens = 8; max_new_tokens = 8 })
    ≡ raise prompt_too_long
unfolding validate_request
too_long = refl

slots-IsCounted_example : IsCounted 2 (slots events (limiter, 0))
slots-IsCounted_example = slots-IsCounted 2 events (limiter, 0) (refl, omega arith, refl)

abbrev tasks : List Task
tasks = starts ∷ starts ∷ finishes ∷ closes ∷ starts ∷ finishes ∷ []

run-init_tracker-IsIdle_example :
    ((run tasks init_tracker).idle ≡ true) ↔ ((run tasks init_tracker).active ≡ 0)
run-init_tracker-IsIdle_example = run-init_tracker-IsIdle tasks

abbrev prompt : List ℕ
prompt = 1 ∷ []

validate_request_iff_example :
    (validate_request prompt 5 3 100 (record { max_prompt_tokens = 8; max_new_tokens = 8 })
      ≡ ok true)
    ↔ ((prompt ≢ []) × (3 ≤ 8) × (5 ≤ 8) × (3 + 5 ≤ 100))
validate_request_iff_example =
    validate_request_iff prompt 5 3 100 (record { max_prompt_tokens = 8; max_new_tokens = 8 })
