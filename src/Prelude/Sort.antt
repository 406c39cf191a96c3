-- ===== src/Prelude/Sort.antt =====
-- A stable sort by a strict order: what sort.SliceStable computes, and sort.Strings too, whose
-- equal elements cannot be told apart.
use Prim.Native.Nat.{ℕ, ◌+◌}
use mathlib.Core.Path.{◌≡◌, refl}
use mathlib.Core.Bool.{Bool}
use mathlib.Core.Logic.{inl, inr}
use mathlib.Core.List.{List, [], ◌∷◌}
use native.Mathlib.Omega.{arith}
use blue.Prelude.Tests.{if◌then◌else◌, Bool-cases}
use blue.Prelude.Lists.{length, All, sum_by}

module _ {ℓ} {A : Type ℓ} (before : A → A → Bool) where
  unfoldable pub insert_sorted : A → List A → List A
  insert_sorted x [] = x ∷ []
  insert_sorted x (y ∷ ys) =
      let rest = insert_sorted x ys in if before y x then y ∷ rest else x ∷ y ∷ ys

  unfoldable pub stable_sort : List A → List A
  unfolding insert_sorted
  stable_sort [] = []
  stable_sort (x ∷ xs) = insert_sorted x (stable_sort xs)

  pub length-insert_sorted : (x : A) (xs : List A) → length (insert_sorted x xs) ≡ length xs + 1
  unfolding insert_sorted
  length-insert_sorted x [] = omega arith
  length-insert_sorted x (y ∷ ys) = ground (arith, length-insert_sorted x ys)

  pub length-stable_sort : (xs : List A) → length (stable_sort xs) ≡ length xs
  unfolding stable_sort
  length-stable_sort [] = refl
  length-stable_sort (x ∷ xs) =
      omega (arith, length-insert_sorted x (stable_sort xs), length-stable_sort xs)

  pub sum_by-insert_sorted :
      (f : A → ℕ) (x : A) (xs : List A) → sum_by f (insert_sorted x xs) ≡ f x + sum_by f xs
  unfolding insert_sorted
  sum_by-insert_sorted f x [] = refl
  sum_by-insert_sorted f x (y ∷ ys) = ground (arith, sum_by-insert_sorted f x ys)

  pub sum_by-stable_sort : (f : A → ℕ) (xs : List A) → sum_by f (stable_sort xs) ≡ sum_by f xs
  unfolding stable_sort
  sum_by-stable_sort f [] = refl
  sum_by-stable_sort f (x ∷ xs) =
      omega (arith, sum_by-insert_sorted f x (stable_sort xs), sum_by-stable_sort f xs)

  pub All-insert_sorted {κ} :
      (P : A → Type κ) (x : A) (xs : List A) → P x → All P xs → All P (insert_sorted x xs)
  unfolding insert_sorted
  All-insert_sorted P x [] p h = (p, tt)
  All-insert_sorted P x (y ∷ ys) p h = elim (Bool-cases (before y x)) [
    | inl e ↦ rw e (h.0, All-insert_sorted P x ys p h.1)
    | inr e ↦ rw e (p, h)
  ]

  pub All-stable_sort {κ} : (P : A → Type κ) (xs : List A) → All P xs → All P (stable_sort xs)
  unfolding stable_sort
  All-stable_sort P [] h = tt
  All-stable_sort P (x ∷ xs) h =
      All-insert_sorted P x (stable_sort xs) h.0 (All-stable_sort P xs h.1)
