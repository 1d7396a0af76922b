-- ===== src/Worker/Loads.antt =====
-- Loads of apps/worker/service.py that begin, and those that fail for want of memory.
use gpu_aware_llm_serving_pl.Common.{
  ℕ, ◌+◌, ◌≤◌, ◌<◌, ◌≡◌, refl, sym, ap, ◌∙◌, true, false, some, List, [], ◌∷◌, ltb, mem, sum_of,
  All, arith, Bool-cases, inl, inr,
}
use gpu_aware_llm_serving_pl.Common.Sort.{insort, sorted, mem-sorted}
use gpu_aware_llm_serving_pl.Domain.{ModelDefinition}
use gpu_aware_llm_serving_pl.Worker.{Worker, memory_error, key_error}
use gpu_aware_llm_serving_pl.Worker.Models.{
  is_used, by_last_use, Evictions, unknown, evictions, needed_memory, plan_evictions, LoadStep,
  begins, refused, reserve_for, reserve_load, admit_load, is_short,
}
use gpu_aware_llm_serving_pl.Worker.Eviction.{memory_of, idle_memory, Plan, choose_evictions-Plan}

module _ (key : ℕ → ℕ) where
  sum_of-insort : (f : ℕ → ℕ) (x : ℕ) (xs : List ℕ) → sum_of f (insort key x xs) ≡ f x + sum_of f xs
  unfolding insort
  sum_of-insort f x [] = refl
  sum_of-insort f x (y ∷ ys) = ground (arith, sum_of-insort f x ys)

  sum_of-sorted : (f : ℕ → ℕ) (xs : List ℕ) → sum_of f (sorted key xs) ≡ sum_of f xs
  unfolding sorted
  sum_of-sorted f [] = refl
  sum_of-sorted f (x ∷ xs) =
      sum_of-insort f x (sorted key xs) ∙ ap (λ n. f x + n) (sum_of-sorted f xs)

module _ (w : Worker) where
  mem-by_last_use : (m : ℕ) → mem m (by_last_use w) ≡ mem m w.resident_models
  unfolding by_last_use
  mem-by_last_use m = mem-sorted _ m _ ∙ mem-sorted _ m w.resident_models

  idle_memory-by_last_use : idle_memory w (by_last_use w) ≡ idle_memory w w.resident_models
  unfolding by_last_use
  idle_memory-by_last_use = sum_of-sorted _ _ _ ∙ sum_of-sorted _ _ w.resident_models

  resident :
      (gone : List ℕ)
      → All (λ m. mem m (by_last_use w) ≡ true) gone
      → All (λ m. mem m w.resident_models ≡ true) gone
  resident [] h = tt
  resident (m ∷ gone) (h, hs) = (sym (mem-by_last_use m) ∙ h, resident gone hs)

  plan_evictions-Plan :
      (model : ModelDefinition) (free : ℕ)
      → Plan w (needed_memory w model) free (by_last_use w) (plan_evictions w model (some free))
  unfolding plan_evictions
  plan_evictions-Plan model free = elim (Bool-cases (ltb free (needed_memory w model))) [
    | inl short ↦
        rw (short, plan_evictions)
          (choose_evictions-Plan w (needed_memory w model) free (by_last_use w))
    | inr fits ↦
        rw (fits, plan_evictions)
          (record {
            unused = tt;
            listed = tt;
            freed_is = refl;
            enough_or_all = inl (ground (arith, fits));
          })
  ]

  -- A load that begins.
  pub record Reserved (model : ModelDefinition) (free : ℕ) (w' : Worker) (gone : List ℕ)
      : Type 0 where
    unused : All (λ m. is_used w m ≡ false) gone
    resident_before : All (λ m. mem m w.resident_models ≡ true) gone
    enough : needed_memory w model ≤ free + sum_of (memory_of w) gone
    state : w' ≡ admit_load w model gone

  abbrev pub Answer : ModelDefinition → ℕ → Worker × LoadStep → Type 0
  Answer model free (w', begins attempt gone) = Reserved model free w' gone
  Answer model free (w', refused memory_error) =
      (w' ≡ w) × (free + idle_memory w w.resident_models < needed_memory w model)
  Answer model free (w', refused key_error) = w' ≡ w
  Answer model free (w', _) = ⊥

  reserve_for-Answer :
      (model : ModelDefinition) (free : ℕ) (x : Evictions)
      → Plan w (needed_memory w model) free (by_last_use w) x
      → Answer model free (reserve_for w model (some free) x)
  reserve_for-Answer model free unknown p = refl
  reserve_for-Answer model free (evictions gone freed) p =
      elim (Bool-cases (is_short w model (some free) freed)) [
        | inl short ↦
            let all : freed ≡ idle_memory w w.resident_models = elim p.enough_or_all [
              | inl l ↦ ground (arith, short, l)
              | inr e ↦ e ∙ idle_memory-by_last_use
            ] in
            rw short (refl, ground (arith, short, all))
        | inr enough ↦ rw enough (record {
          unused = p.unused;
          resident_before = resident gone p.listed;
          enough = ground (arith, enough, p.freed_is);
          state = refl;
        })
      ]

-- The locked part of a load with a known free memory. Where it begins the load, the models it evicts were resident and
-- no queued or active request needs them, and the free memory with what they free covers the model, the other loads
-- and the safety reserve. Where it raises MemoryError the worker is as before, and evicting every model that no request
-- needs would not have been enough.
pub reserve_load-Answer :
    (w : Worker) (model : ModelDefinition) (free : ℕ)
    → Answer w model free (reserve_load w model (some free))
unfolding reserve_load
reserve_load-Answer w model free =
    reserve_for-Answer w model free (plan_evictions w model (some free))
      (plan_evictions-Plan w model free)
