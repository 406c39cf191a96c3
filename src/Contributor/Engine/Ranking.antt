-- ===== src/Contributor/Engine/Ranking.antt =====
-- The order in which Allocate of contributor/engine.go gives out the remaining cents: the larger
-- remainder first, and among equal ones the account that sorts first.
use blue.Prelude.{
  ℕ, zero, suc, ◌+◌, ◌≤◌, ◌<◌, ◌≡◌, refl, ◌⊎◌, inl, inr, ℤ, pos, pos_part, Bool, ◌==◌, ltb_ℤ,
  ==_iff, ltb, All-insert_sorted, All-stable_sort, List, [], ◌∷◌, length, All, take, get_or, arith,
  if◌then◌else◌, stable_sort, insert_sorted, sum_by-stable_sort, Bool-cases,
}
use mathlib.Core.Path.{subst}
use blue.Contributor.Engine.{range_from, by_remainder, larger_remainder}
use blue.Contributor.Engine.Order.{count}

-- An index range holds each number once at most.
count-range_from_below : (i n j : ℕ) → j < i → count j (range_from i n) ≡ 0
unfolding range_from
count-range_from_below i zero j h = refl
count-range_from_below i (suc n) j h = ground (arith, count-range_from_below (suc i) n j)

count-range_from : (i n j : ℕ) → count j (range_from i n) ≤ 1
unfolding range_from
count-range_from i zero j = omega arith
count-range_from i (suc n) j =
    ground (arith, count-range_from (suc i) n j, count-range_from_below (suc i) n j)

count-take : (i k : ℕ) (xs : List ℕ) → count i (take k xs) ≤ count i xs
count-take i zero xs = omega arith
count-take i (suc k) [] = omega arith
count-take i (suc k) (x ∷ xs) = omega (arith, count-take i k xs)

pub count-by_remainder :
    (remainders : List ℤ) (k i : ℕ) → count i (take k (by_remainder remainders)) ≤ 1
unfolding by_remainder
count-by_remainder remainders k i = omega (
  arith,
  count-take i k (by_remainder remainders),
  sum_by-stable_sort (larger_remainder remainders) (λ j. if j == i then 1 else 0)
      (range_from 0 (length remainders)),
  count-range_from 0 (length remainders) i,
)

range_from-above : (i j n : ℕ) → i < j → All (λ k. i < k) (range_from j n)
unfolding range_from
range_from-above i j zero h = tt
range_from-above i j (suc n) h = (h, range_from-above i (suc j) n (omega arith))

count-range_from_inside : (i n j : ℕ) → i ≤ j → j < i + n → 1 ≤ count j (range_from i n)
unfolding range_from
count-range_from_inside i zero j h lt = absurd (omega arith)
count-range_from_inside i (suc n) j h lt = ground (arith, count-range_from_inside (suc i) n j)

-- The larger key first, and among equal keys the smaller index.
module _ (r : ℕ → ℕ) where
  abbrev pub First : ℕ → ℕ → Type 0
  First i j = (r j < r i) ⊎ ((r j ≡ r i) × (i < j))

  abbrev pub Sorted : List ℕ → Type 0
  Sorted [] = Unit
  Sorted (x ∷ xs) = All (First x) xs × Sorted xs

  First-below :
      (x y : ℕ) (zs : List ℕ)
      → r y ≤ r x
      → All (First y) zs
      → All (λ z. x < z) zs
      → All (First x) zs
  First-below x y [] h p q = tt
  First-below x y (z ∷ zs) h p q = (ground arith, First-below x y zs h p.1 q.1)

  First-here : (x y : ℕ) → r y ≤ r x → x < y → First x y
  First-here x y h lt = ground arith

  All-get : (P : ℕ → Type 0) (j : ℕ) (xs : List ℕ) → All P xs → 1 ≤ count j xs → P j
  All-get P j [] h c = absurd (omega arith)
  All-get P j (x ∷ xs) h c = elim (Bool-cases (x == j)) [
    | inl e ↦ subst P ((==_iff x j).0 e) h.0
    | inr e ↦ All-get P j xs h.1 (ground arith)
  ]

  -- In a sorted list what is taken comes first.
  pub taken-First :
      (k i j : ℕ) (xs : List ℕ)
      → Sorted xs
      → 1 ≤ count i (take k xs)
      → count j (take k xs) ≡ 0
      → 1 ≤ count j xs
      → First i j
  taken-First zero i j xs s ci cj c = absurd (omega arith)
  taken-First (suc k) i j [] s ci cj c = absurd (omega arith)
  taken-First (suc k) i j (x ∷ xs) s ci cj c = elim (Bool-cases (x == i)) [
    | inl e ↦ subst (λ z. First z j) ((==_iff x i).0 e) (All-get (First x) j xs s.0 (ground arith))
    | inr e ↦ taken-First k i j xs s.1 (ground arith) (ground arith) (ground arith)
  ]

  module _ (before : ℕ → ℕ → Bool) (by_key : (i j : ℕ) → before i j ≡ ltb (r j) (r i)) where
    insert_sorted-Sorted :
        (x : ℕ) (ys : List ℕ) → All (λ y. x < y) ys → Sorted ys → Sorted (insert_sorted before x ys)
    unfolding insert_sorted
    insert_sorted-Sorted x [] above s = (tt, tt)
    insert_sorted-Sorted x (y ∷ ys) above s = elim (Bool-cases (before y x)) [
      | inl e ↦ rw e (
        All-insert_sorted before (First y) x ys (inl (ground (arith, by_key y x))) s.0,
        insert_sorted-Sorted x ys above.1 s.1,
      )
      | inr e ↦ rw e (
        (
          First-here x y (ground (arith, by_key y x)) above.0,
          First-below x y ys (ground (arith, by_key y x)) s.0 above.1,
        ),
        s,
      )
    ]

    stable_sort-Sorted : (i n : ℕ) → Sorted (stable_sort before (range_from i n))
    unfolding stable_sort range_from
    stable_sort-Sorted i zero = tt
    stable_sort-Sorted i (suc n) =
        insert_sorted-Sorted i (stable_sort before (range_from (suc i) n))
          (All-stable_sort before (λ j. i < j) (range_from (suc i) n)
            (range_from-above i (suc i) n (omega arith)))
          (stable_sort-Sorted (suc i) n)

get_or-nonneg :
    (remainders : List ℤ) (i : ℕ)
    → All (λ z. z ≡ pos (pos_part z)) remainders
    → get_or remainders i (pos 0) ≡ pos (pos_part (get_or remainders i (pos 0)))
get_or-nonneg [] i h = refl
get_or-nonneg (z ∷ zs) zero h = h.0
get_or-nonneg (z ∷ zs) (suc i) h = get_or-nonneg zs i h.1

ltb_ℤ-nonneg :
    (a b : ℤ)
    → a ≡ pos (pos_part a)
    → b ≡ pos (pos_part b)
    → ltb_ℤ a b ≡ ltb (pos_part a) (pos_part b)
ltb_ℤ-nonneg a b ha hb = ground arith

-- Of two indices, of which one is among the first k of the order and the other is not, the first
-- has the larger remainder, or an equal one and stands before the other.
pub by_remainder-First :
    (remainders : List ℤ) (k i j : ℕ)
    → All (λ z. z ≡ pos (pos_part z)) remainders
    → j < length remainders
    → 1 ≤ count i (take k (by_remainder remainders))
    → count j (take k (by_remainder remainders)) ≡ 0
    → First (λ n. pos_part (get_or remainders n (pos 0))) i j
unfolding by_remainder
by_remainder-First remainders k i j h lt ci cj =
    taken-First (λ n. pos_part (get_or remainders n (pos 0))) k i j (by_remainder remainders)
      (stable_sort-Sorted (λ n. pos_part (get_or remainders n (pos 0)))
        (larger_remainder remainders)
        (λ a b. ltb_ℤ-nonneg _ _ (get_or-nonneg remainders b h) (get_or-nonneg remainders a h)) 0
        (length remainders))
      ci cj
      (omega (
        arith,
        sum_by-stable_sort (larger_remainder remainders) (λ n. if n == j then 1 else 0)
            (range_from 0 (length remainders)),
        count-range_from_inside 0 (length remainders) j,
      ))
