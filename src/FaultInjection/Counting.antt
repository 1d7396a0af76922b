-- ===== src/FaultInjection/Counting.antt =====
-- Which calls of runtime/fault_injection.py fail, after any calls before them.
use gpu_aware_llm_serving_pl.Common.{
  ℕ, ◌+◌, ◌≡◌, refl, ap, ◌∙◌, subst, Option, none, some, List, [], ◌∷◌, map, count, Result, ok,
  raise, arith, Option-cases, inl, inr,
}
use gpu_aware_llm_serving_pl.Common.Dict.{lookup, share, lookup-insert}
use gpu_aware_llm_serving_pl.FaultInjection.{
  Injector, FaultRule, CallError, injected, InjectedFault, calls, faults, init_injector, before,
  inner, call, index_rules,
}

module _ {R : Type 0} where
  calls-before :
      (i : Injector R) (op k : ℕ) → calls (before i op).0 k ≡ calls i k + count k (op ∷ [])
  unfolding before calls
  calls-before i op k = ground (arith, lookup-insert op k (calls i op + 1) i.counts)

module _ {R E A : Type 0} where
  -- Calls of operations one after another, exceptions being caught.
  unfoldable pub run : Injector R → List (ℕ × (R → R × Result E A)) → Injector R
  run i [] = i
  run i ((op, f) ∷ cs) = run (call i op f).0 cs

  abbrev pub names : List (ℕ × (R → R × Result E A)) → List ℕ
  names cs = map (λ c. c.0) cs

  inner_counts :
      (i : Injector R) (x : R × Result E A)
      → ((inner i x).0.counts ≡ i.counts) × ((inner i x).0.rules ≡ i.rules)
  inner_counts i (r, ok a) = (refl, refl)
  inner_counts i (r, raise e) = (refl, refl)

  calls-call :
      (i : Injector R) (op k : ℕ) (f : R → R × Result E A)
      → (calls (call i op f).0 k ≡ calls i k + count k (op ∷ []))
        × ((call i op f).0.rules ≡ i.rules)
  unfolding call before calls
  calls-call i op k f = elim (Option-cases (faults (lookup op i.rules) op (calls i op + 1))) [
    | inr (x, e) ↦ rw (e, call) (calls-before i op k, refl)
    | inl e ↦
        let (same, rules) = inner_counts (before i op).0 (f i.runtime) in
        rw (e, call) (ap (λ d. share (λ n. n) (lookup k d)) same ∙ calls-before i op k, rules)
  ]

  calls-run :
      (i : Injector R) (cs : List (ℕ × (R → R × Result E A))) (k : ℕ)
      → (calls (run i cs) k ≡ calls i k + count k (names cs)) × ((run i cs).rules ≡ i.rules)
  unfolding run
  calls-run i [] k = (omega arith, refl)
  calls-run i ((op, f) ∷ cs) k =
      let (counted, rules) = calls-run (call i op f).0 cs k in
      let (one, same) = calls-call i op k f in (omega (arith, counted, one), rules ∙ same)

  -- What a caller gets, and the runtime after it.
  abbrev pub answer_of : Option InjectedFault → R × Result E A → Result (CallError E) A
  answer_of (some x) y = raise (injected x)
  answer_of none (r, ok a) = ok a
  answer_of none (r, raise e) = raise (CallError.from_runtime e)

  abbrev pub runtime_of : Option InjectedFault → R → R × Result E A → R
  runtime_of (some x) r y = r
  runtime_of none r y = y.0

  call_lem :
      (i : Injector R) (op : ℕ) (f : R → R × Result E A)
      → let fault = faults (lookup op i.rules) op (calls i op + 1) in
        ((call i op f).1 ≡ answer_of fault (f i.runtime))
        × ((call i op f).0.runtime ≡ runtime_of fault i.runtime (f i.runtime))
  unfolding call before
  call_lem i op f = elim (Option-cases (faults (lookup op i.rules) op (calls i op + 1))) [
    | inr (x, e) ↦ rw (e, call) (refl, refl)
    | inl e ↦ rw (e, call) (inner_lem (f i.runtime))
  ]
    where
      inner_lem :
          (x : R × Result E A)
          → ((inner (before i op).0 x).1 ≡ answer_of none x)
            × ((inner (before i op).0 x).0.runtime ≡ x.0)
      inner_lem (r, ok a) = (refl, refl)
      inner_lem (r, raise e) = (refl, refl)

  -- After any calls on a new wrapper, failed ones included, the next call of an operation fails with the fault of the
  -- operation's rule if and only if its number, the calls of that operation before it and one, is listed in the rule.
  -- Then the runtime is not called; otherwise the answer and the runtime are what the call of the runtime gives.
  pub call-run-init_injector :
      (runtime : R) (rules : List FaultRule) (i : Injector R) (cs : List (ℕ × (R → R × Result E A)))
      (op : ℕ) (f : R → R × Result E A)
      → init_injector runtime rules ≡ ok i
      → let j = run i cs in
        let fault = faults (lookup op (index_rules rules [])) op (count op (names cs) + 1) in
        ((call j op f).1 ≡ answer_of fault (f j.runtime))
        × ((call j op f).0.runtime ≡ runtime_of fault j.runtime (f j.runtime))
  unfolding init_injector calls lookup
  call-run-init_injector runtime rules i cs op f e =
      let j = run i cs in
      let (counted, same) = calls-run i cs op in
      let new_rules : i.rules ≡ index_rules rules [] = ground (arith, e) in
      let new_counts : i.counts ≡ [] = ground (arith, e) in
      let none_yet : calls i op ≡ 0 = rw new_counts refl in
      let n : calls j op ≡ count op (names cs) = omega (arith, counted, none_yet) in
      subst
        (λ x.
          ((call j op f).1
            ≡ answer_of (faults (lookup op x) op (count op (names cs) + 1)) (f j.runtime))
          × ((call j op f).0.runtime
              ≡ runtime_of (faults (lookup op x) op (count op (names cs) + 1)) j.runtime
                  (f j.runtime)))
        (same ∙ new_rules)
        (subst
          (λ x.
            ((call j op f).1 ≡ answer_of (faults (lookup op j.rules) op (x + 1)) (f j.runtime))
            × ((call j op f).0.runtime
                ≡ runtime_of (faults (lookup op j.rules) op (x + 1)) j.runtime (f j.runtime)))
          n (call_lem j op f))
