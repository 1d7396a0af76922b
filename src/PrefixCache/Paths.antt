-- ===== src/PrefixCache/Paths.antt =====
-- The radix tree of inference/prefix_cache.py as a map from token paths to entries.
use gpu_aware_llm_serving_pl.Common.{
  ℕ, ◌≡◌, refl, sym, ap, ◌∙◌, true, Option, none, some, List, [], ◌∷◌, ◌==◌, if◌then◌else◌, arith,
  Option-cases, Bool-cases, inl, inr, if_cases,
}
use gpu_aware_llm_serving_pl.PrefixCache.{is_same}
use gpu_aware_llm_serving_pl.PrefixCache.Radix.{
  or_else, Entry, Node, node, Children, end, child, find_child, put_child, del_child, or_new,
  new_node, is_bare, relinked, set_entry, unset_entry, remove_radix_entry,
}

find_child-put_child :
    (t u : ℕ) (m : Node) (cs : Children)
    → find_child u (put_child t m cs) ≡ (if t == u then some m else find_child u cs)
unfolding find_child put_child
find_child-put_child t u m end = refl
find_child-put_child t u m (child v n cs) = ground (arith, find_child-put_child t u m cs)

find_child-del_child :
    (t u : ℕ) (cs : Children)
    → find_child u (del_child t cs) ≡ (if t == u then none else find_child u cs)
unfolding find_child del_child
find_child-del_child t u end = ground arith
find_child-del_child t u (child v n cs) = ground (arith, find_child-del_child t u cs)

-- The entry at the end of a path.
unfoldable pub entry_at : Node → List ℕ → Option Entry
entry_at (node cs e) [] = e
entry_at (node cs e) (t ∷ ts) = elim (find_child t cs) [ none ↦ none | some n ↦ entry_at n ts ]

-- The entry below a child that may be missing.
unfoldable pub entry_below : Option Node → List ℕ → Option Entry
unfolding entry_at
entry_below none ts = none
entry_below (some n) ts = entry_at n ts

pub entry_at-root : (cs : Children) (e : Option Entry) → entry_at (node cs e) [] ≡ e
unfolding entry_at
entry_at-root cs e = refl

pub entry_at-cons :
    (cs : Children) (e : Option Entry) (t : ℕ) (ts : List ℕ)
    → entry_at (node cs e) (t ∷ ts) ≡ entry_below (find_child t cs) ts
unfolding entry_below entry_at
entry_at-cons cs e t ts = elim (Option-cases (find_child t cs)) [
  | inl h ↦ rw (h, entry_at) refl
  | inr (n, h) ↦ rw (h, entry_at) refl
]

pub entry_at-new_node : (ts : List ℕ) → entry_at new_node ts ≡ none
unfolding entry_at find_child
entry_at-new_node [] = refl
entry_at-new_node (t ∷ ts) = refl

entry_below-or_new : (n : Option Node) (ts : List ℕ) → entry_at (or_new n) ts ≡ entry_below n ts
unfolding entry_below
entry_below-or_new none ts = entry_at-new_node ts
entry_below-or_new (some n) ts = refl

pub entry_below-none : (ts : List ℕ) → entry_below none ts ≡ none
unfolding entry_below
entry_below-none ts = refl

pub entry_below-some : (n : Node) (ts : List ℕ) → entry_below (some n) ts ≡ entry_at n ts
unfolding entry_below
entry_below-some n ts = refl

-- Setting an entry changes the map at its path only.
pub entry_at-set_entry :
    (n : Node) (ts us : List ℕ) (x : Entry)
    → entry_at (set_entry n ts x) us ≡ (if is_same ts us then some x else entry_at n us)
unfolding set_entry
entry_at-set_entry (node cs e) [] [] x = entry_at-root cs (some x)
entry_at-set_entry (node cs e) [] (u ∷ us) x =
    entry_at-cons cs (some x) u us ∙ sym (entry_at-cons cs e u us)
entry_at-set_entry (node cs e) (t ∷ ts) [] x =
    entry_at-root (put_child t (set_entry (or_new (find_child t cs)) ts x) cs) e
    ∙ sym (entry_at-root cs e)
entry_at-set_entry (node cs e) (t ∷ ts) (u ∷ us) x =
    let m = set_entry (or_new (find_child t cs)) ts x in
    entry_at-cons (put_child t m cs) e u us
    ∙ rw (find_child-put_child t u m cs, entry_at-cons cs e u us)
        (elim (Bool-cases (t == u)) [
          | inl h ↦
              let below : entry_below (some m) us
                  ≡ (if is_same ts us then some x else entry_below (find_child t cs) us) =
                entry_below-some m us
                ∙ entry_at-set_entry (or_new (find_child t cs)) ts us x
                ∙ ap (λ o. if is_same ts us then some x else o)
                    (entry_below-or_new (find_child t cs) us) in
              ground (arith, below)
          | inr h ↦ ground arith
        ])

entry_at-bare : (n : Node) (us : List ℕ) → is_bare n ≡ true → entry_at n us ≡ none
entry_at-bare (node end none) us h = entry_at-new_node us
entry_at-bare (node end (some x)) us h = cc
entry_at-bare (node (child t n cs) x) us h = cc

entry_below-relinked :
    (t u : ℕ) (cs : Children) (m : Node) (us : List ℕ)
    → entry_below (find_child u (relinked t cs m)) us
      ≡ (if t == u then entry_at m us else entry_below (find_child u cs) us)
unfolding relinked
entry_below-relinked t u cs m us =
    if_cases
      (λ x.
        entry_below (find_child u x) us
        ≡ (if t == u then entry_at m us else entry_below (find_child u cs) us))
      (is_bare m)
      (λ h.
        rw (find_child-del_child t u cs)
          (ground (arith, entry_at-bare m us h, entry_below-none us)))
      (λ h. rw (find_child-put_child t u m cs) (ground (arith, entry_below-some m us)))

-- Removing an entry changes the map at its path only: the cases where the path breaks off, here or below.
missing :
    (cs : Children) (e : Option Entry) (t : ℕ) (ts us : List ℕ)
    → find_child t cs ≡ none
    → entry_at (node cs e) us ≡ (if is_same (t ∷ ts) us then none else entry_at (node cs e) us)
missing cs e t ts [] h = refl
missing cs e t ts (u ∷ us) h = rw (entry_at-cons cs e u us) (ground (arith, entry_below-none us))

unchanged :
    (cs : Children) (e : Option Entry) (t : ℕ) (ts us : List ℕ) (n : Node)
    → find_child t cs ≡ some n
    → ((vs : List ℕ) → entry_at n vs ≡ (if is_same ts vs then none else entry_at n vs))
    → entry_at (node cs e) us ≡ (if is_same (t ∷ ts) us then none else entry_at (node cs e) us)
unchanged cs e t ts [] n h ih = refl
unchanged cs e t ts (u ∷ us) n h ih =
    rw (entry_at-cons cs e u us) (ground (arith, ih us, entry_below-some n us))

replaced :
    (cs : Children) (e : Option Entry) (t : ℕ) (ts us : List ℕ) (n m : Node)
    → find_child t cs ≡ some n
    → ((vs : List ℕ) → entry_at m vs ≡ (if is_same ts vs then none else entry_at n vs))
    → entry_at (node (relinked t cs m) e) us
      ≡ (if is_same (t ∷ ts) us then none else entry_at (node cs e) us)
replaced cs e t ts [] n m h ih = entry_at-root (relinked t cs m) e ∙ sym (entry_at-root cs e)
replaced cs e t ts (u ∷ us) n m h ih =
    rw
      (
        entry_at-cons cs e u us,
        entry_at-cons (relinked t cs m) e u us,
        entry_below-relinked t u cs m us,
      )
      (ground (arith, ih us, entry_below-some n us))

entry_at-or_else :
    (n : Node) (ts us : List ℕ)
    → entry_at (or_else (unset_entry n ts) n) us ≡ (if is_same ts us then none else entry_at n us)
unfolding unset_entry
entry_at-or_else (node cs e) [] [] = entry_at-root cs none
entry_at-or_else (node cs e) [] (u ∷ us) =
    entry_at-cons cs none u us ∙ sym (entry_at-cons cs e u us)
entry_at-or_else (node cs e) (t ∷ ts) us = elim (Option-cases (find_child t cs)) [
  | inl h ↦ rw (h, unset_entry) (missing cs e t ts us h)
  | inr (n, h) ↦ elim (Option-cases (unset_entry n ts)) [
    | inl k ↦
        rw (h, k, unset_entry)
          (unchanged cs e t ts us n h
            (λ vs. ap (λ o. entry_at (or_else o n) vs) (sym k) ∙ entry_at-or_else n ts vs))
    | inr (m, k) ↦
        rw (h, k, unset_entry)
          (replaced cs e t ts us n m h
            (λ vs. ap (λ o. entry_at (or_else o n) vs) (sym k) ∙ entry_at-or_else n ts vs))
  ]
]

pub entry_at-remove_radix_entry :
    (n : Node) (ts us : List ℕ)
    → entry_at (remove_radix_entry n ts) us ≡ (if is_same ts us then none else entry_at n us)
unfolding remove_radix_entry
entry_at-remove_radix_entry n ts us = entry_at-or_else n ts us
