-- ===== src/Worker/Eviction.antt =====
-- What a load of apps/worker/service.py evicts.
use gpu_aware_llm_serving_pl.Common.{
  ◌⊎◌, ℕ, ◌+◌, ◌≤◌, ◌≡◌, refl, ap, subst, true, false, List, [], ◌∷◌, leb, if◌then◌else◌, mem,
  sum_of, All, arith, Bool-cases, Option-cases, inl, inr,
}
use gpu_aware_llm_serving_pl.Common.Dict.{lookup, share}
use gpu_aware_llm_serving_pl.Worker.{Worker}
use gpu_aware_llm_serving_pl.Worker.Models.{
  is_used, Evictions, unknown, evictions, evict_also, choose_evictions,
}

-- The memory that a model is said to take.
abbrev pub memory_of : Worker → ℕ → ℕ
memory_of w m = share (λ d. d.estimated_memory_bytes) (lookup m w.model_definitions)

-- The memory of the models that no request needs.
abbrev pub idle_memory : Worker → List ℕ → ℕ
idle_memory w ms = sum_of (λ m. if is_used w m then 0 else memory_of w m) ms

-- The loop frees enough, or all that no request needs.
pub record Planned (w : Worker) (needed free : ℕ) (ms gone : List ℕ) (freed : ℕ) : Type 0 where
  pub unused : All (λ m. is_used w m ≡ false) gone
  pub listed : All (λ m. mem m ms ≡ true) gone
  pub freed_is : freed ≡ sum_of (memory_of w) gone
  pub enough_or_all : (needed ≤ free + freed) ⊎ (freed ≡ idle_memory w ms)

abbrev pub Plan : Worker → ℕ → ℕ → List ℕ → Evictions → Type 0
Plan w needed free ms unknown = Unit
Plan w needed free ms (evictions gone freed) = Planned w needed free ms gone freed

listed_more :
    (m : ℕ) (ms gone : List ℕ)
    → All (λ k. mem k ms ≡ true) gone
    → All (λ k. mem k (m ∷ ms) ≡ true) gone
listed_more m ms [] h = tt
listed_more m ms (k ∷ gone) (h, hs) = (ground (arith, h), listed_more m ms gone hs)

module _ (w : Worker) (needed : ℕ) where
  skipped-Plan :
      (free m : ℕ) (ms : List ℕ) (x : Evictions)
      → is_used w m ≡ true
      → Plan w needed free ms x
      → Plan w needed free (m ∷ ms) x
  skipped-Plan free m ms unknown u p = tt
  skipped-Plan free m ms (evictions gone freed) u p = record {
    unused = p.unused;
    listed = listed_more m ms gone p.listed;
    freed_is = p.freed_is;
    enough_or_all = elim p.enough_or_all [
      | inl l ↦ inl l
      | inr e ↦ inr (rw (u) (omega (arith, e)))
    ];
  }

  more-Plan :
      (free m : ℕ) (ms : List ℕ) (x : Evictions)
      → is_used w m ≡ false
      → Plan w needed (free + memory_of w m) ms x
      → Plan w needed free (m ∷ ms) (evict_also m (memory_of w m) x)
  more-Plan free m ms unknown u p = tt
  more-Plan free m ms (evictions gone freed) u p = record {
    unused = (u, p.unused);
    listed = (ground arith, listed_more m ms gone p.listed);
    freed_is = omega (arith, p.freed_is);
    enough_or_all = elim p.enough_or_all [
      | inl l ↦ inl (omega (arith, l))
      | inr e ↦ inr (rw (u) (omega (arith, e)))
    ];
  }

  pub choose_evictions-Plan :
      (free : ℕ) (ms : List ℕ) → Plan w needed free ms (choose_evictions w needed free ms)
  unfolding choose_evictions
  choose_evictions-Plan free [] = record {
    unused = tt;
    listed = tt;
    freed_is = refl;
    enough_or_all = inr refl;
  }
  choose_evictions-Plan free (m ∷ ms) = elim (Bool-cases (is_used w m)) [
    | inl u ↦ rw (u, choose_evictions) (skipped-Plan free m ms _ u (choose_evictions-Plan free ms))
    | inr u ↦ elim (Option-cases (lookup m w.model_definitions)) [
      | inl e ↦ rw (u, e, choose_evictions) tt
      | inr (d, e) ↦
          let bytes : memory_of w m ≡ d.estimated_memory_bytes =
            ap (share (λ d. d.estimated_memory_bytes)) e in
          elim (Bool-cases (leb needed (free + d.estimated_memory_bytes))) [
            | inl l ↦
                rw (u, e, l, choose_evictions)
                  (record {
                    unused = (u, tt);
                    listed = (ground arith, tt);
                    freed_is = omega (arith, bytes);
                    enough_or_all = inl (ground (arith, l));
                  })
            | inr l ↦
                rw (u, e, l, choose_evictions)
                  (subst
                    (λ n.
                      Plan w needed free (m ∷ ms)
                        (evict_also m n (choose_evictions w needed (free + n) ms)))
                    bytes
                    (more-Plan free m ms _ u (choose_evictions-Plan (free + memory_of w m) ms)))
          ]
    ]
  ]
