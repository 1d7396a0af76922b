-- ===== src/Common/Sort.antt =====
-- `sorted` with a key: a stable insertion sort.
use Prim.Native.Nat.{ℕ, ◌≤◌}
use mathlib.Core.List.{List, [], ◌∷◌, Perm}
use mathlib.Core.List.Perm
use mathlib.Core.Logic.{inl, inr}
use mathlib.Core.Path.{◌≡◌, refl, ◌∙◌}
use native.Mathlib.Omega.{arith}
use gpu_aware_llm_serving_pl.Common.Lists.{mem}
use gpu_aware_llm_serving_pl.Common.Tests.{if◌then◌else◌, leb, Bool-cases}

module _ {ℓ} {A : Type ℓ} (key : A → ℕ) where
  unfoldable pub insort : A → List A → List A
  insort a [] = a ∷ []
  insort a (x ∷ xs) = if leb (key a) (key x) then a ∷ x ∷ xs else x ∷ insort a xs

  unfoldable pub sorted : List A → List A
  unfolding insort
  sorted [] = []
  sorted (x ∷ xs) = insort x (sorted xs)

  abbrev pub IsSorted : List A → Type 0
  IsSorted [] = Unit
  IsSorted (x ∷ []) = Unit
  IsSorted (x ∷ y ∷ ys) = (key x ≤ key y) × IsSorted (y ∷ ys)

  insort-IsSorted : (a : A) (xs : List A) → IsSorted xs → IsSorted (insort a xs)
  unfolding insort
  insort-IsSorted a [] h = tt
  insort-IsSorted a (x ∷ []) h = ground arith
  insort-IsSorted a (x ∷ y ∷ ys) h = ground (arith, insort-IsSorted a (y ∷ ys) h.1)

  pub sorted-IsSorted : (xs : List A) → IsSorted (sorted xs)
  unfolding sorted
  sorted-IsSorted [] = tt
  sorted-IsSorted (x ∷ xs) = insort-IsSorted x (sorted xs) (sorted-IsSorted xs)

  insort-perm : (a : A) (xs : List A) → Perm (insort a xs) (a ∷ xs)
  unfolding insort
  insort-perm a [] = Perm.refl _
  insort-perm a (x ∷ xs) = elim (Bool-cases (leb (key a) (key x))) [
    | inl e ↦ rw (e, insort) (Perm.refl _)
    | inr e ↦ rw (e, insort) (Perm.trans (Perm.cons x (insort-perm a xs)) (Perm.swap a x xs))
  ]

  pub sorted-perm : (xs : List A) → Perm (sorted xs) xs
  unfolding sorted
  sorted-perm [] = Perm.refl _
  sorted-perm (x ∷ xs) = Perm.trans (insort-perm x (sorted xs)) (Perm.cons x (sorted-perm xs))

module _ (key : ℕ → ℕ) where
  mem-insort : (a x : ℕ) (xs : List ℕ) → mem a (insort key x xs) ≡ mem a (x ∷ xs)
  unfolding insort
  mem-insort a x [] = refl
  mem-insort a x (y ∷ ys) = ground (arith, mem-insort a x ys)

  pub mem-sorted : (a : ℕ) (xs : List ℕ) → mem a (sorted key xs) ≡ mem a xs
  unfolding sorted
  mem-sorted a [] = refl
  mem-sorted a (x ∷ xs) = mem-insort a x (sorted key xs) ∙ ground (arith, mem-sorted a xs)
