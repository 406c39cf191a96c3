-- ===== src/Contributor/Engine/Leftover.antt =====
-- The last loop of Allocate in contributor/engine.go: who gets the cents that are left over.
use blue.Prelude.{
  ℕ, zero, suc, ◌+◌, ◌^◌, ◌≤◌, ◌<◌, ◌≡◌, refl, ap, ◌∙◌, ℤ, add64-pos, List, [], ◌∷◌, length, All,
  sum_by, arith, length-stable_sort, All-stable_sort,
}
use blue.Contributor.Result.{ok}
use blue.Contributor.Round.{Entitlement}
use blue.Contributor.Engine.{increment, give, range_from, by_remainder, larger_remainder}
use blue.Contributor.Engine.Shares.{cents, IsCents}

pub length-increment : (i : ℕ) (es : List Entitlement) → length (increment i es) ≡ length es
unfolding increment
length-increment i [] = refl
length-increment zero (e ∷ es) = refl
length-increment (suc i) (e ∷ es) = ap suc (length-increment i es)

pub increment-IsCents :
    (i : ℕ) (es : List Entitlement)
    → All IsCents es
    → sum_by cents es + 1 < 2 ^ 63
    → All IsCents (increment i es)
unfolding increment
increment-IsCents i [] h lt = tt
increment-IsCents zero (e ∷ es) h lt = (rw (h.0, add64-pos (cents e) 1 (omega arith)), h.1)
increment-IsCents (suc i) (e ∷ es) h lt = (h.0, increment-IsCents i es h.1 (omega arith))

pub sum_by-increment :
    (i : ℕ) (es : List Entitlement)
    → All IsCents es
    → sum_by cents es + 1 < 2 ^ 63
    → i < length es
    → sum_by cents (increment i es) ≡ sum_by cents es + 1
unfolding increment
sum_by-increment i [] h lt b = elim b [ ]
sum_by-increment zero (e ∷ es) h lt b = rw (h.0, add64-pos (cents e) 1 (omega arith)) (omega arith)
sum_by-increment (suc i) (e ∷ es) h lt b =
    omega (arith, sum_by-increment i es h.1 (omega arith) (omega arith))

-- The loop ends, and raises the sum by the number of its rounds.
pub record Given (k : ℕ) (order : List ℕ) (es : List Entitlement) : Type 0 where
  pub result : List Entitlement
  pub returned : give k order es ≡ ok result
  pub sum : sum_by cents result ≡ sum_by cents es + k
  pub amounts : All IsCents result

pub give-Given :
    (k : ℕ) (order : List ℕ) (es : List Entitlement)
    → k ≤ length order
    → All (λ i. i < length es) order
    → All IsCents es
    → sum_by cents es + k < 2 ^ 63
    → Given k order es
unfolding give
give-Given zero order es long inside h lt = record {
  result = es;
  returned = refl;
  sum = omega arith;
  amounts = h;
}
give-Given (suc k) [] es long inside h lt = absurd (omega arith)
give-Given (suc k) (i ∷ order) es long inside h lt =
    let step = sum_by-increment i es h (omega arith) inside.0 in
    let rest : Given k order (increment i es) =
      give-Given k order (increment i es) (omega arith) (rw (length-increment i es) inside.1)
        (increment-IsCents i es h (omega arith)) (omega arith) in
    record {
      result = rest.result;
      returned = rest.returned;
      sum = omega (arith, rest.sum);
      amounts = rest.amounts;
    }

length-range_from : (i n : ℕ) → length (range_from i n) ≡ n
unfolding range_from
length-range_from i zero = refl
length-range_from i (suc n) = ap suc (length-range_from (suc i) n)

pub range_from-below : (i n m : ℕ) → i + n ≤ m → All (λ j. j < m) (range_from i n)
unfolding range_from
range_from-below i zero m h = tt
range_from-below i (suc n) m h = (omega arith, range_from-below (suc i) n m (omega arith))

module _ (remainders : List ℤ) where
  -- Every index stands in the order, and none out of range.
  pub length-by_remainder : length (by_remainder remainders) ≡ length remainders
  unfolding by_remainder
  length-by_remainder =
      length-stable_sort (larger_remainder remainders) (range_from 0 (length remainders))
      ∙ length-range_from 0 (length remainders)

  pub by_remainder-below :
      (n : ℕ) → length remainders ≡ n → All (λ i. i < n) (by_remainder remainders)
  unfolding by_remainder
  by_remainder-below n e =
      All-stable_sort (larger_remainder remainders) (λ i. i < n) (range_from 0 (length remainders))
        (range_from-below 0 (length remainders) n (omega arith))
