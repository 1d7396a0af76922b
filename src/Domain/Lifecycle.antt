-- ===== src/Domain/Lifecycle.antt =====
-- The request state machine of serving_platform/domain/models.py.
use gpu_aware_llm_serving_pl.Common.{
  inr, inl, Bool-cases, arith, Option, ℕ, ◌≡◌, ◌≢◌, refl, Bool, true, false, none, List, [], ◌∷◌,
  ok, raise, ◌⊎◌,
}
use gpu_aware_llm_serving_pl.Domain.{
  stamp, init_request, RequestState, RequestRecord, is_terminal, is_allowed, transition, terminal,
  received, validated, admitted, queued, assigned, prefill, decode, running, streaming, completed,
  rejected, timed_out, cancelled, failed,
}

-- A caller that tries transitions one after another, and goes on after a refusal.
unfoldable pub attempt : RequestRecord → RequestState × ℕ → RequestRecord
unfolding transition
attempt r (target, at) = elim (transition r target at) [ ok r' ↦ r' | raise e ↦ r ]

unfoldable pub attempts : RequestRecord → List (RequestState × ℕ) → RequestRecord
attempts r [] = r
attempts r (t ∷ ts) = attempts (attempt r t) ts

pub allowed-not-terminal : (s t : RequestState) → is_terminal s ≡ true → is_allowed s t ≡ false
unfolding is_terminal is_allowed
allowed-not-terminal completed t h = refl
allowed-not-terminal rejected t h = refl
allowed-not-terminal timed_out t h = refl
allowed-not-terminal cancelled t h = refl
allowed-not-terminal failed t h = refl
allowed-not-terminal received t h = cc
allowed-not-terminal validated t h = cc
allowed-not-terminal admitted t h = cc
allowed-not-terminal queued t h = cc
allowed-not-terminal assigned t h = cc
allowed-not-terminal prefill t h = cc
allowed-not-terminal decode t h = cc
allowed-not-terminal running t h = cc
allowed-not-terminal streaming t h = cc

attempt-terminal : (r : RequestRecord) (t : RequestState × ℕ) → terminal r ≡ true → attempt r t ≡ r
unfolding attempt
attempt-terminal r (target, at) h = rw (allowed-not-terminal r.status target h, attempt) refl

-- A request in a terminal state is never changed again: whatever transitions are tried on it, its
-- record stays as it is, timestamps included.
pub attempts-terminal :
    (r : RequestRecord) (ts : List (RequestState × ℕ)) → terminal r ≡ true → attempts r ts ≡ r
unfolding attempts
attempts-terminal r [] h = refl
attempts-terminal r (t ∷ ts) h = rw (attempt-terminal r t h) (attempts-terminal r ts h)

-- The states that a request reaches only after it was admitted.
abbrev after_admission : RequestState → Bool
after_admission received = false
after_admission validated = false
after_admission rejected = false
after_admission timed_out = false
after_admission cancelled = false
after_admission _ = true

-- The states that a request reaches only after some model execution started.
abbrev is_executed : RequestState → Bool
is_executed completed = true
is_executed decode = true
is_executed streaming = true
is_executed _ = false

-- What the timestamps of a request in a given state show of its past.
pub record Traced (s : RequestState) (d : RequestState → Option ℕ) : Type 0 where
  pub current : d s ≢ none
  pub admission : after_admission s ≡ true → d admitted ≢ none
  pub execution : is_executed s ≡ true → (d running ≢ none) ⊎ (d prefill ≢ none)

stamp_current : (d : RequestState → Option ℕ) (t : RequestState) (at : ℕ) → stamp d t at t ≢ none
stamp_current d t at = ground arith

stamp_keeps :
    (d : RequestState → Option ℕ) (t u : RequestState) (at : ℕ) → d u ≢ none → stamp d t at u ≢ none
stamp_keeps d t u at h = ground arith

after_admission_step :
    (s t : RequestState)
    → is_allowed s t ≡ true
    → after_admission t ≡ true
    → (after_admission s ≡ true) ⊎ (t ≡ admitted)
unfolding is_allowed
after_admission_step received validated h k = cc
after_admission_step s t h k = ground arith

is_executed_step :
    (s t : RequestState)
    → is_allowed s t ≡ true
    → is_executed t ≡ true
    → (is_executed s ≡ true) ⊎ ((s ≡ running) ⊎ (s ≡ prefill))
unfolding is_allowed
is_executed_step received validated h k = cc
is_executed_step s t h k = ground arith

step-Traced :
    (s t : RequestState) (d : RequestState → Option ℕ) (at : ℕ)
    → is_allowed s t ≡ true
    → Traced s d
    → Traced t (stamp d t at)
step-Traced s t d at h p = record {
  current = stamp_current d t at;
  admission = λ k. elim (after_admission_step s t h k) [
    | inl e ↦ stamp_keeps d t admitted at (p.admission e)
    | inr e ↦ rw e (stamp_current d admitted at)
  ];
  execution = λ k. elim (is_executed_step s t h k) [
    | inl e ↦ elim (p.execution e) [
      | inl q ↦ inl (stamp_keeps d t running at q)
      | inr q ↦ inr (stamp_keeps d t prefill at q)
    ]
    | inr (inl e) ↦ inl (stamp_keeps d t running at (rw e at p.current))
    | inr (inr e) ↦ inr (stamp_keeps d t prefill at (rw e at p.current))
  ];
}

attempt-Traced :
    (r : RequestRecord) (t : RequestState × ℕ)
    → Traced r.status r.transition_timestamps
    → Traced (attempt r t).status (attempt r t).transition_timestamps
unfolding attempt
attempt-Traced r (target, at) p = elim (Bool-cases (is_allowed r.status target)) [
  | inl e ↦ rw (e, attempt) (step-Traced r.status target _ at e p)
  | inr e ↦ rw (e, attempt) p
]

attempts-Traced :
    (r : RequestRecord) (ts : List (RequestState × ℕ))
    → Traced r.status r.transition_timestamps
    → Traced (attempts r ts).status (attempts r ts).transition_timestamps
unfolding attempts
attempts-Traced r [] p = p
attempts-Traced r (t ∷ ts) p = attempts-Traced (attempt r t) ts (attempt-Traced r t p)

-- Whatever transitions are tried on a request that was received with no timestamps yet, its
-- timestamps have its present state, they have an admission if it got into a state behind admission,
-- and they have the start of an execution (running or prefill) if it got as far as decoding,
-- streaming or completion.
pub init_request-attempts-Traced :
    (r q : RequestRecord) (ts : List (RequestState × ℕ))
    → r.status ≡ received
    → ((s : RequestState) → r.transition_timestamps s ≡ none)
    → init_request r ≡ ok q
    → Traced (attempts q ts).status (attempts q ts).transition_timestamps
unfolding init_request
init_request-attempts-Traced r q ts fresh blank e = attempts-Traced q ts (record {
  current = ground (arith, blank received);
  admission = ground (arith, blank received);
  execution = ground (arith, blank received);
})
