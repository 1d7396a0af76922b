-- ===== src/PrefixCache/Longest.antt =====
-- The walk of `longest_prefix` in inference/prefix_cache.py finds the longest cached prefix.
use gpu_aware_llm_serving_pl.Common.{
  ℕ, suc, ◌≤◌, ◌≡◌, ◌≢◌, ◌⊎◌, refl, ap, ◌∙◌, Bool, true, false, ◌&&◌, Option, none, some, List, [],
  ◌∷◌, ◌==◌, arith, Option-cases, inl, inr, length,
}
use gpu_aware_llm_serving_pl.PrefixCache.Radix.{
  Entry, Node, node, Children, find_child, entry_of, or_entry, walk,
}
use gpu_aware_llm_serving_pl.PrefixCache.Paths.{
  entry_at, entry_at-root, entry_at-cons, entry_below, entry_below-some, entry_below-none,
}

abbrev pub is_prefix : List ℕ → List ℕ → Bool
is_prefix [] ts = true
is_prefix (u ∷ us) [] = false
is_prefix (u ∷ us) (t ∷ ts) = (t == u) && is_prefix us ts

-- No path along the tokens, but for the empty one, has an entry.
abbrev pub IsAbsent : Node → List ℕ → Type 0
IsAbsent n ts = (v : ℕ) (vs : List ℕ) → is_prefix (v ∷ vs) ts ≡ true → entry_at n (v ∷ vs) ≡ none

-- The answer is the entry of the longest path along the tokens that has one.
abbrev pub IsFound : Node → List ℕ → Option Entry → Type 0
IsFound n ts r =
    (u : ℕ) × (us : List ℕ) × (m : Entry) × (r ≡ some m)
    × (entry_at n (u ∷ us) ≡ some m)
    × (is_prefix (u ∷ us) ts ≡ true)
    × ((vs : List ℕ) → is_prefix vs ts ≡ true → entry_at n vs ≢ none → length vs ≤ length (u ∷ us))

abbrev pub Answer : Node → List ℕ → Option Entry → Option Entry → Type 0
Answer n ts e r = (IsAbsent n ts × (r ≡ e)) ⊎ IsFound n ts r

entry_at-nil : (n : Node) → entry_at n [] ≡ entry_of n
entry_at-nil (node cs e) = entry_at-root cs e

-- The first step, where the child is there.
module _ (cs : Children) (x : Option Entry) (t : ℕ) (ts : List ℕ) (n : Node)
    (h : find_child t cs ≡ some n) where
  entry_at-child : (vs : List ℕ) → entry_at (node cs x) (t ∷ vs) ≡ entry_at n vs
  entry_at-child vs = entry_at-cons cs x t vs ∙ ap (λ o. entry_below o vs) h ∙ entry_below-some n vs

  longer :
      (k : ℕ)
      → ((vs : List ℕ) → is_prefix vs ts ≡ true → entry_at n vs ≢ none → length vs ≤ k)
      → (vs : List ℕ) → is_prefix vs (t ∷ ts) ≡ true
      → entry_at (node cs x) vs ≢ none
      → length vs ≤ suc k
  longer k f [] p q = omega arith
  longer k f (v ∷ vs) p q =
      let e : t ≡ v = ground arith in
      let shorter : length vs ≤ k =
        f vs (ground arith) (λ z. q (rw (← e) (entry_at-child vs ∙ z))) in
      omega (arith, shorter)

  none_deeper :
      IsAbsent n ts → (vs : List ℕ) → is_prefix vs ts ≡ true → entry_at n vs ≢ none → length vs ≤ 0
  none_deeper absent [] p q = omega arith
  none_deeper absent (v ∷ vs) p q = absurd (q (absent v vs p))

  still-IsAbsent : entry_of n ≡ none → IsAbsent n ts → IsAbsent (node cs x) (t ∷ ts)
  still-IsAbsent k absent v [] p =
      let e : t ≡ v = ground arith in rw (← e) (entry_at-child [] ∙ entry_at-nil n ∙ k)
  still-IsAbsent k absent v (w ∷ ws) p =
      let e : t ≡ v = ground arith in
      rw (← e) (entry_at-child (w ∷ ws) ∙ absent w ws (ground arith))

  extend :
      (e r : Option Entry)
      → Answer n ts (or_entry (entry_of n) e) r
      → Answer (node cs x) (t ∷ ts) e r
  extend e r (inr (u, us, m, a, b, c, longest)) =
      inr (
        t,
        u ∷ us,
        m,
        a,
        entry_at-child (u ∷ us) ∙ b,
        ground arith,
        longer (length (u ∷ us)) longest,
      )
  extend e r (inl (absent, a)) = elim (Option-cases (entry_of n)) [
    | inl k ↦ inl (still-IsAbsent k absent, a ∙ ap (λ o. or_entry o e) k)
    | inr (m, k) ↦ inr (
      t,
      [],
      m,
      a ∙ ap (λ o. or_entry o e) k,
      entry_at-child [] ∙ entry_at-nil n ∙ k,
      ground arith,
      longer 0 (none_deeper absent),
    )
  ]

no_child :
    (cs : Children) (x : Option Entry) (t : ℕ) (ts : List ℕ)
    → find_child t cs ≡ none
    → IsAbsent (node cs x) (t ∷ ts)
no_child cs x t ts h v vs p =
    let e : t ≡ v = ground arith in
    rw (← e) (entry_at-cons cs x t vs ∙ ap (λ o. entry_below o vs) h ∙ entry_below-none vs)

pub walk-Answer : (n : Node) (ts : List ℕ) (e : Option Entry) → Answer n ts e (walk n ts e)
unfolding walk
walk-Answer n [] e = inl ((λ v vs p. cc), refl)
walk-Answer (node cs x) (t ∷ ts) e = elim (Option-cases (find_child t cs)) [
  | inl h ↦ rw (h, walk) (inl (no_child cs x t ts h, refl))
  | inr (n, h) ↦
      rw (h, walk) (extend cs x t ts n h e _ (walk-Answer n ts (or_entry (entry_of n) e)))
]
