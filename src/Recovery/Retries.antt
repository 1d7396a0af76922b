-- ===== src/Recovery/Retries.antt =====
-- Which requests apps/control_plane/service.py gives to another worker.
use gpu_aware_llm_serving_pl.Common.{
  ℕ, ◌≡◌, ◌≢◌, ◌<◌, true, false, not, ◌||◌, Option, leb, Result, ok, raise, if_cases, arith,
}
use gpu_aware_llm_serving_pl.Domain.{
  RequestRecord, RequestState, terminal, transition, RetryReason, DomainError,
}
use gpu_aware_llm_serving_pl.FairQueue.{FairQueue}
use gpu_aware_llm_serving_pl.Recovery.{
  Clock, RecoveryError, Fate, requeued, is_begun, is_assigned_to, ended, end_request, recover_one,
}

ended_lost :
    (x : RetryReason) (a : Result DomainError RequestRecord) (s : RequestRecord)
    → ended x a ≢ ok (s, requeued)
ended_lost x (raise e) s h = cc
ended_lost x (ok r) s h = cc

module _ (queue : Option FairQueue) (w max_attempts : ℕ) (clock : Clock) (r s : RequestRecord) where
  -- What a request must be to go to another worker.
  abbrev pub IsRetryable : Type 0
  IsRetryable =
      (is_assigned_to w r.assigned_worker_id ≡ true)
      × (terminal r ≡ false)
      × (is_begun r ≡ false)
      × (r.payload_available ≡ true)
      × (clock.first < r.deadline)
      × (r.attempt_count < max_attempts)

  -- An answer that requeues the request only if it may be.
  abbrev IsSafe : Option FairQueue × Result RecoveryError (RequestRecord × Fate) → Type 0
  IsSafe x = x.1 ≡ ok (s, requeued) → IsRetryable

  end_request-IsSafe :
      (t : RequestState) (x : RetryReason) (now : ℕ) → IsSafe (queue, end_request t x now r)
  unfolding end_request
  end_request-IsSafe t x now h = absurd (ended_lost x (transition r t now) s h)

  -- Recovery gives a request of the lost worker to another one only if it has not ended, it has not been running or
  -- streaming, its prompt is still there, its deadline has not passed at the first reading of
  -- the clock and it has attempts left.
  pub recover_one-IsRetryable :
      (recover_one queue w max_attempts clock r).1 ≡ ok (s, requeued) → IsRetryable
  unfolding recover_one
  recover_one-IsRetryable =
      if_cases IsSafe (not (is_assigned_to w r.assigned_worker_id) || terminal r) (λ a h. cc)
        (λ a.
          if_cases IsSafe (is_begun r) (λ b. end_request-IsSafe _ _ _)
            (λ b.
              if_cases IsSafe (not r.payload_available) (λ c. end_request-IsSafe _ _ _)
                (λ c.
                  if_cases IsSafe (leb max_attempts r.attempt_count || leb r.deadline clock.first)
                    (λ d.
                      if_cases
                        (λ (x : Result RecoveryError (RequestRecord × Fate)). IsSafe (queue, x))
                        (leb r.deadline clock.second) (λ e. end_request-IsSafe _ _ _)
                        (λ e. end_request-IsSafe _ _ _))
                    (λ d h. ground arith))))
