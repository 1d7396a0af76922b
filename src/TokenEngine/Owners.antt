-- ===== src/TokenEngine/Owners.antt =====
-- Which sequences of inference/token_engine.py have key/value cache blocks.
use gpu_aware_llm_serving_pl.Common.{
  Result-cases, ℕ, ◌+◌, ◌≡◌, refl, Bool, true, ◌||◌, List, [], ◌∷◌, leb, length, mem, pos, arith,
  if_cases, Option-cases, inl, inr, ap, sym, ◌++◌, ◌∙◌,
}
use gpu_aware_llm_serving_pl.Common.Dict.{Dict, lookup, has, size, lookup-insert}
use gpu_aware_llm_serving_pl.KvCache.{allocate}
use gpu_aware_llm_serving_pl.KvCache.Preserve.{allocate-Inv}
use gpu_aware_llm_serving_pl.KvCache.Results.{allocate_raises}
use gpu_aware_llm_serving_pl.TokenEngine.{
  with_blocks, Engine, Sequence, SamplingParameters, FinishReason, reserve, scheduled, eos, stop,
  length_reached, decode, generated, cancel, complete, fail, accept_token, check_interruption,
  is_terminal, finish_interrupted, complete_all, cancel_all, shutdown, cancelled_reason,
}
use gpu_aware_llm_serving_pl.TokenEngine.Ending.{
  Outcome, IsOwning, has-allocate, complete-IsOwning, fail-IsOwning, store-IsOwning,
  has-insert_same,
}

accept_token-IsOwning :
    (backend : ℕ → Bool) (e : Engine) (s : Sequence) (t now : ℕ) (ends : List ℕ)
    → IsOwning e
    → IsOwning (accept_token backend e s t now ends).0
unfolding accept_token
accept_token-IsOwning backend e s t now ends h = elim (Option-cases (check_interruption now s)) [
  | inr (r, k) ↦ rw (k, accept_token) (complete-IsOwning backend e s r h)
  | inl k ↦
      let s' : Sequence = record s {
        phase = decode;
        generated_token_ids = s.generated_token_ids ++ t ∷ [];
        events = s.events ++ generated t ∷ [];
      } in
      rw (k, accept_token)
        (if_cases {A = Outcome} (λ x. IsOwning x.0) (mem t ends)
          (λ j. complete-IsOwning backend e s eos h)
          (λ j.
            if_cases {A = Outcome} (λ x. IsOwning x.0) (mem t s.sampling.stop_token_ids)
              (λ i. complete-IsOwning backend e s stop h)
              (λ i.
                if_cases {A = Outcome} (λ x. IsOwning x.0)
                  (leb s.sampling.max_new_tokens (length s'.generated_token_ids))
                  (λ l. complete-IsOwning backend e s' length_reached h)
                  (λ l. store-IsOwning e s' h))))
]

cancel-IsOwning : (e : Engine) (id : ℕ) → IsOwning e → IsOwning (cancel e id).0
unfolding cancel
cancel-IsOwning e i h = elim (Option-cases (lookup i e.active)) [
  | inl k ↦ rw (k, cancel) h
  | inr (s, k) ↦
      rw (k, cancel)
        (if_cases {A = Engine × Bool} (λ x. IsOwning x.0) (is_terminal s.phase) (λ j. h)
          (λ j. record {
            books = h.books;
            owned = λ id.
                h.owned id
                ∙ sym
                    (has-insert_same i id (record s { cancellation = true }) e.active (rw k refl));
          }))
]

granted-IsOwning :
    (e : Engine) (id prompt : ℕ) (p : SamplingParameters) (deadline tokens now : ℕ)
    → IsOwning e
    → IsOwning
        (with_blocks e id prompt p deadline now
          (allocate e.kv_allocator id (pos (tokens + p.max_new_tokens)))).0
unfolding with_blocks
granted-IsOwning e i prompt p deadline tokens now h =
    elim (Result-cases (allocate e.kv_allocator i (pos (tokens + p.max_new_tokens))).1) [
      | inl (x, k) ↦ rw k (record {
        books = allocate-Inv e.kv_allocator i (pos (tokens + p.max_new_tokens)) h.books;
        owned = λ id.
            ap (has id) (allocate_raises e.kv_allocator i (pos (tokens + p.max_new_tokens)) x k).1
            ∙ h.owned id;
      })
      | inr (bs, k) ↦ rw k (record {
        books = allocate-Inv e.kv_allocator i (pos (tokens + p.max_new_tokens)) h.books;
        owned = λ id.
            has-allocate e.kv_allocator i (tokens + p.max_new_tokens) bs k id
            ∙ ground (
              arith,
              h.owned id,
              lookup-insert i id (scheduled i prompt p deadline bs now) e.active,
            );
      })
    ]

reserve-IsOwning :
    (e : Engine) (id prompt : ℕ) (p : SamplingParameters) (deadline tokens now : ℕ)
    → IsOwning e
    → IsOwning (reserve e id prompt p deadline tokens now).0
unfolding reserve
reserve-IsOwning e i prompt p deadline tokens now h =
    if_cases {A = Outcome} (λ x. IsOwning x.0) e.closed (λ k. h)
      (λ k.
        if_cases {A = Outcome} (λ x. IsOwning x.0) (has i e.active || has i e.finished) (λ j. h)
          (λ j.
            if_cases {A = Outcome} (λ x. IsOwning x.0) (leb e.max_active_sequences (size e.active))
              (λ l. h) (λ l. granted-IsOwning e i prompt p deadline tokens now h)))

finish_interrupted-IsOwning :
    (backend : ℕ → Bool) (now : ℕ) (d : Dict Sequence) (e : Engine)
    → IsOwning e
    → IsOwning (finish_interrupted backend now d e).0
unfolding finish_interrupted
finish_interrupted-IsOwning backend now [] e h = h
finish_interrupted-IsOwning backend now ((i, s) ∷ d) e h =
    elim (Option-cases (check_interruption now s)) [
      | inl k ↦ rw (k, finish_interrupted) (finish_interrupted-IsOwning backend now d e h)
      | inr (r, k) ↦
          let inv = complete-IsOwning backend e s r h in
          elim (Result-cases (complete backend e s r).1) [
            | inl (x, j) ↦ rw (k, finish_interrupted, j) inv
            | inr (u, j) ↦
                rw (k, finish_interrupted, j) (finish_interrupted-IsOwning backend now d _ inv)
          ]
    ]

complete_all-IsOwning :
    (backend : ℕ → Bool) (d : Dict Sequence) (e : Engine)
    → IsOwning e
    → IsOwning (complete_all backend d e).0
unfolding complete_all
complete_all-IsOwning backend [] e h = h
complete_all-IsOwning backend ((i, s) ∷ d) e h =
    let inv = complete-IsOwning backend e s cancelled_reason h in
    elim (Result-cases (complete backend e s cancelled_reason).1) [
      | inl (x, j) ↦ rw (complete_all, j) inv
      | inr (u, j) ↦ rw (complete_all, j) (complete_all-IsOwning backend d _ inv)
    ]

has-cancel_all : (id : ℕ) (d : Dict Sequence) → has id (cancel_all d) ≡ has id d
unfolding cancel_all lookup
has-cancel_all id [] = refl
has-cancel_all id ((i, s) ∷ d) = ground (arith, has-cancel_all id d)

shutdown-IsOwning : (backend : ℕ → Bool) (e : Engine) → IsOwning e → IsOwning (shutdown backend e).0
unfolding shutdown
shutdown-IsOwning backend e h =
    if_cases {A = Outcome} (λ x. IsOwning x.0) e.closed (λ k. h)
      (λ k.
        complete_all-IsOwning backend (cancel_all e.active) _
          (record { books = h.books; owned = λ id. h.owned id ∙ sym (has-cancel_all id e.active) }))

-- The calls of the engine by its scheduler and its clients; a sequence stands for its object, and the function
-- says of which sequences the backend's `release_sequence` raises during the call.
pub data Call : Type 0 where
  reserves : ℕ → ℕ → SamplingParameters → ℕ → ℕ → ℕ → Call
  cancels : ℕ → Call
  accepts : (ℕ → Bool) → Sequence → ℕ → ℕ → List ℕ → Call
  completes : (ℕ → Bool) → Sequence → FinishReason → Call
  fails : (ℕ → Bool) → Sequence → ℕ → Call
  interrupts : (ℕ → Bool) → ℕ → Call
  shuts_down : (ℕ → Bool) → Call

unfoldable pub step : Call → Engine → Engine
step (reserves i prompt p deadline tokens now) e = (reserve e i prompt p deadline tokens now).0
step (cancels i) e = (cancel e i).0
step (accepts backend s t now ends) e = (accept_token backend e s t now ends).0
step (completes backend s r) e = (complete backend e s r).0
step (fails backend s x) e = (fail backend e s x).0
step (interrupts backend now) e = (finish_interrupted backend now e.active e).0
step (shuts_down backend) e = (shutdown backend e).0

unfoldable pub run : List Call → Engine → Engine
run [] e = e
run (c ∷ cs) e = run cs (step c e)

step-IsOwning : (c : Call) (e : Engine) → IsOwning e → IsOwning (step c e)
unfolding step
step-IsOwning (reserves i prompt p deadline tokens now) e h =
    reserve-IsOwning e i prompt p deadline tokens now h
step-IsOwning (cancels i) e h = cancel-IsOwning e i h
step-IsOwning (accepts backend s t now ends) e h = accept_token-IsOwning backend e s t now ends h
step-IsOwning (completes backend s r) e h = complete-IsOwning backend e s r h
step-IsOwning (fails backend s x) e h = fail-IsOwning backend e s x h
step-IsOwning (interrupts backend now) e h = finish_interrupted-IsOwning backend now e.active e h
step-IsOwning (shuts_down backend) e h = shutdown-IsOwning backend e h

-- After any calls, those in which the backend raises and those in which the allocator refuses included, the
-- allocator holds blocks for exactly the active sequences and its books are in order, if both were so before: no
-- sequence that ended keeps blocks, and none that is active has lost its own.
pub run-IsOwning : (cs : List Call) (e : Engine) → IsOwning e → IsOwning (run cs e)
unfolding run
run-IsOwning [] e h = h
run-IsOwning (c ∷ cs) e h = run-IsOwning cs (step c e) (step-IsOwning c e h)
