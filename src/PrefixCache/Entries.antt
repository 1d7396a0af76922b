-- ===== src/PrefixCache/Entries.antt =====
-- The ordered dictionary of inference/prefix_cache.py: entries by their tokens.
use gpu_aware_llm_serving_pl.Common.{
  ℕ, suc, ◌+◌, ◌≡◌, refl, ◌∙◌, true, Option, none, some, List, [], ◌∷◌, ◌++◌, if◌then◌else◌, arith,
  length, sum_of, sum_of-append, length-append, to_nat,
}
use gpu_aware_llm_serving_pl.PrefixCache.{is_same, find, drop_entry, token_count, is_some_entry}
use gpu_aware_llm_serving_pl.PrefixCache.Radix.{Entry}

pub is_same_refl : (ts : List ℕ) → is_same ts ts ≡ true
is_same_refl [] = refl
is_same_refl (t ∷ ts) = ground (arith, is_same_refl ts)

pub is_same_eq : (ts us : List ℕ) → is_same ts us ≡ true → ts ≡ us
is_same_eq [] [] h = refl
is_same_eq [] (u ∷ us) h = cc
is_same_eq (t ∷ ts) [] h = cc
is_same_eq (t ∷ ts) (u ∷ us) h = ground (arith, is_same_eq ts us)

pub is_same_sym : (ts us : List ℕ) → is_same ts us ≡ is_same us ts
is_same_sym [] [] = refl
is_same_sym [] (u ∷ us) = refl
is_same_sym (t ∷ ts) [] = refl
is_same_sym (t ∷ ts) (u ∷ us) = ground (arith, is_same_sym ts us)

pub find_tokens :
    (ts : List ℕ) (es : List Entry) (e : Entry) → find ts es ≡ some e → e.token_ids ≡ ts
unfolding find
find_tokens ts [] e h = cc
find_tokens ts (x ∷ es) e h = ground (arith, find_tokens ts es e, is_same_eq x.token_ids ts)

pub find-drop_entry :
    (ts us : List ℕ) (es : List Entry)
    → find us (drop_entry ts es) ≡ (if is_same ts us then none else find us es)
unfolding find drop_entry
find-drop_entry ts us [] = ground arith
find-drop_entry ts us (x ∷ es) = ground (
  arith,
  find-drop_entry ts us es,
  is_same_eq x.token_ids ts,
  is_same_eq x.token_ids us,
  is_same_eq ts us,
  is_same_refl us,
)

abbrev pub or_last : Option Entry → List ℕ → Entry → Option Entry
or_last (some x) us e = some x
or_last none us e = if is_same e.token_ids us then some e else none

pub find-append :
    (us : List ℕ) (es : List Entry) (e : Entry) → find us (es ++ e ∷ []) ≡ or_last (find us es) us e
unfolding find
find-append us [] e = refl
find-append us (x ∷ es) e = ground (arith, find-append us es e)

-- No key stands twice.
unfoldable pub IsUnique : List Entry → Type 0
IsUnique [] = Unit
IsUnique (e ∷ es) = (find e.token_ids es ≡ none) × IsUnique es

abbrev pub tokens_of : List Entry → ℕ
tokens_of = sum_of (λ e. length e.token_ids)

drop_absent : (ts : List ℕ) (es : List Entry) → find ts es ≡ none → drop_entry ts es ≡ es
unfolding find drop_entry
drop_absent ts [] h = refl
drop_absent ts (x ∷ es) h = ground (arith, drop_absent ts es)

pub tokens_of-drop_entry :
    (ts : List ℕ) (es : List Entry)
    → IsUnique es
    → tokens_of (drop_entry ts es) + token_count (find ts es) ≡ tokens_of es
unfolding find drop_entry IsUnique
tokens_of-drop_entry ts [] h = refl
tokens_of-drop_entry ts (x ∷ es) h =
    ground (arith, tokens_of-drop_entry ts es h.1, drop_absent ts es, is_same_eq x.token_ids ts)

pub length-drop_entry :
    (ts : List ℕ) (es : List Entry)
    → IsUnique es
    → length (drop_entry ts es) + to_nat (is_some_entry (find ts es)) ≡ length es
unfolding find drop_entry IsUnique
length-drop_entry ts [] h = refl
length-drop_entry ts (x ∷ es) h =
    ground (arith, length-drop_entry ts es h.1, drop_absent ts es, is_same_eq x.token_ids ts)

drop_entry-IsUnique : (ts : List ℕ) (es : List Entry) → IsUnique es → IsUnique (drop_entry ts es)
unfolding drop_entry IsUnique
drop_entry-IsUnique ts [] h = tt
drop_entry-IsUnique ts (x ∷ es) h =
    ground (arith, drop_entry-IsUnique ts es h.1, find-drop_entry ts x.token_ids es)

append-IsUnique :
    (es : List Entry) (e : Entry)
    → IsUnique es
    → find e.token_ids es ≡ none
    → IsUnique (es ++ e ∷ [])
unfolding IsUnique find
append-IsUnique [] e h k = (refl, tt)
append-IsUnique (x ∷ es) e h k = ground (
  arith,
  append-IsUnique es e h.1,
  find-append x.token_ids es e,
  is_same_sym e.token_ids x.token_ids,
)

-- An entry put at the end in place of the one under its key.
module _ (es : List Entry) (e : Entry) where
  abbrev pub renewed : List Entry
  renewed = drop_entry e.token_ids es ++ e ∷ []

  pub renewed-IsUnique : IsUnique es → IsUnique renewed
  renewed-IsUnique h =
      append-IsUnique (drop_entry e.token_ids es) e (drop_entry-IsUnique e.token_ids es h)
        (ground (arith, find-drop_entry e.token_ids e.token_ids es, is_same_refl e.token_ids))

  pub find-renewed :
      (us : List ℕ) → find us renewed ≡ (if is_same e.token_ids us then some e else find us es)
  find-renewed us =
      find-append us (drop_entry e.token_ids es) e
      ∙ ground (arith, find-drop_entry e.token_ids us es)

  pub tokens_of-renewed :
      IsUnique es
      → tokens_of renewed + token_count (find e.token_ids es) ≡ tokens_of es + length e.token_ids
  tokens_of-renewed h = omega (
    arith,
    tokens_of-drop_entry e.token_ids es h,
    sum_of-append (λ x. length x.token_ids) (drop_entry e.token_ids es) (e ∷ []),
  )

  pub length-renewed :
      IsUnique es → length renewed + to_nat (is_some_entry (find e.token_ids es)) ≡ suc (length es)
  length-renewed h = omega (
    arith,
    length-drop_entry e.token_ids es h,
    length-append (drop_entry e.token_ids es) (e ∷ []),
  )
