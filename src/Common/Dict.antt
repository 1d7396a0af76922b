-- ===== src/Common/Dict.antt =====
-- A Python dictionary: an association list in the order of insertion, with numbers for keys.
use Prim.Native.Nat.{ℕ, suc, ◌+◌, ◌≤◌}
use mathlib.Core.Path.{◌≡◌, refl}
use mathlib.Core.Bool.{Bool, true, false}
use mathlib.Core.List.{List, [], ◌∷◌}
use mathlib.Core.Option.{Option, none, some}
use native.Mathlib.Omega.{arith}
use gpu_aware_llm_serving_pl.Common.Tests.{◌==◌, if◌then◌else◌}

abbrev pub Dict {ℓ} : Type ℓ → Type ℓ
Dict V = List (ℕ × V)

module _ {ℓ} {V : Type ℓ} where
  unfoldable pub lookup : ℕ → Dict V → Option V
  lookup k [] = none
  lookup k ((j, v) ∷ d) = if j == k then some v else lookup k d

  -- `d[k] = v`: a key that is there keeps its place.
  unfoldable pub insert : ℕ → V → Dict V → Dict V
  insert k v [] = (k, v) ∷ []
  insert k v ((j, w) ∷ d) = if j == k then (k, v) ∷ d else (j, w) ∷ insert k v d

  -- `d.pop(k, None)`.
  unfoldable pub erase : ℕ → Dict V → Dict V
  erase k [] = []
  erase k ((j, w) ∷ d) = if j == k then erase k d else (j, w) ∷ erase k d

  abbrev pub is_some : Option V → Bool
  is_some none = false
  is_some (some v) = true

  -- `k in d`.
  abbrev pub has : ℕ → Dict V → Bool
  has k d = is_some (lookup k d)

  abbrev pub keys : Dict V → List ℕ
  keys [] = []
  keys ((k, v) ∷ d) = k ∷ keys d

  abbrev pub values : Dict V → List V
  values [] = []
  values ((k, v) ∷ d) = v ∷ values d

  -- The sum of a number for each entry.
  unfoldable pub total : (V → ℕ) → Dict V → ℕ
  total f [] = 0
  total f ((k, v) ∷ d) = f v + total f d

  -- What an entry adds to a sum, if it is there.
  abbrev pub share : (V → ℕ) → Option V → ℕ
  share f none = 0
  share f (some v) = f v

  -- No key stands twice.
  abbrev pub IsDict : Dict V → Type ℓ
  IsDict [] = Unit
  IsDict ((k, v) ∷ d) = (lookup k d ≡ none) × IsDict d

  pub lookup-insert :
      (k j : ℕ) (v : V) (d : Dict V)
      → lookup j (insert k v d) ≡ (if k == j then some v else lookup j d)
  unfolding lookup insert
  lookup-insert k j v [] = refl
  lookup-insert k j v ((i, w) ∷ d) = ground (arith, lookup-insert k j v d)

  pub lookup-erase :
      (k j : ℕ) (d : Dict V) → lookup j (erase k d) ≡ (if k == j then none else lookup j d)
  unfolding lookup erase
  lookup-erase k j [] = ground arith
  lookup-erase k j ((i, w) ∷ d) = ground (arith, lookup-erase k j d)

  pub insert-IsDict : (k : ℕ) (v : V) (d : Dict V) → IsDict d → IsDict (insert k v d)
  unfolding insert lookup
  insert-IsDict k v [] h = (refl, tt)
  insert-IsDict k v ((i, w) ∷ d) h = ground (arith, insert-IsDict k v d h.1, lookup-insert k i v d)

  pub erase-IsDict : (k : ℕ) (d : Dict V) → IsDict d → IsDict (erase k d)
  unfolding erase lookup
  erase-IsDict k [] h = tt
  erase-IsDict k ((i, w) ∷ d) h = ground (arith, erase-IsDict k d h.1, lookup-erase k i d)

  -- An assignment swaps the old entry's share of a sum for the new one's.
  pub total-insert :
      (f : V → ℕ) (k : ℕ) (v : V) (d : Dict V)
      → total f (insert k v d) + share f (lookup k d) ≡ total f d + f v
  unfolding total insert lookup
  total-insert f k v [] = omega arith
  total-insert f k v ((i, w) ∷ d) = ground (arith, total-insert f k v d)

  erase_absent : (k : ℕ) (d : Dict V) → lookup k d ≡ none → erase k d ≡ d
  unfolding erase lookup
  erase_absent k [] h = refl
  erase_absent k ((i, w) ∷ d) h = ground (arith, erase_absent k d)

  pub total-erase :
      (f : V → ℕ) (k : ℕ) (d : Dict V)
      → IsDict d
      → total f (erase k d) + share f (lookup k d) ≡ total f d
  unfolding total erase lookup
  total-erase f k [] h = omega arith
  total-erase f k ((i, w) ∷ d) h = ground (arith, total-erase f k d h.1, erase_absent k d)

  -- One entry's share is at most the sum.
  pub share-le-total : (f : V → ℕ) (k : ℕ) (d : Dict V) → share f (lookup k d) ≤ total f d
  unfolding total lookup
  share-le-total f k [] = omega arith
  share-le-total f k ((i, w) ∷ d) = ground (arith, share-le-total f k d)

  abbrev pub size : Dict V → ℕ
  size [] = 0
  size (e ∷ d) = suc (size d)

  pub size-insert :
      (k : ℕ) (v : V) (d : Dict V)
      → size (insert k v d) ≡ (if has k d then size d else suc (size d))
  unfolding insert lookup
  size-insert k v [] = refl
  size-insert k v ((i, w) ∷ d) = ground (arith, size-insert k v d)

  pub size-erase :
      (k : ℕ) (d : Dict V) → IsDict d → size (erase k d) + share (λ v. 1) (lookup k d) ≡ size d
  unfolding erase lookup
  size-erase k [] h = refl
  size-erase k ((i, w) ∷ d) h = ground (arith, size-erase k d h.1, erase_absent k d)
