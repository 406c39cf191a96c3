-- ===== src/Contributor/Engine/Shares.antt =====
-- The proportional shares of Allocate in contributor/engine.go: what rounding down leaves over.
use blue.Prelude.{
  ℕ, ◌+◌, ◌*◌, ◌/◌, ◌%◌, ◌^◌, ◌≤◌, ◌<◌, ◌≡◌, refl, ap, ◌∙◌, Text, pos, pos_part, quo, rem, *ℤ-pos,
  wrap64-pos, add64-pos, List, [], ◌∷◌, map, length, All, sum_by, arith,
}
use blue.Contributor.Round.{Entitlement, allocated_from}
use blue.Contributor.Engine.{Credits, credits_of, entitle, remainder_of}
use native.Mathlib.Nat.{
  le_of_mul-le-mul_right, div-add-mod, mod-lt, mul-le-mul_left, div-le_of_le-mul, mul_comm,
}

abbrev pub cents : Entitlement → ℕ
cents e = pos_part e.amount_cents

abbrev pub weight : Credits → Text → ℕ
weight credits account = pos_part (credits_of credits account)

-- Rounding down loses the remainders.
pub shares_total :
    {A : Type 0} (pool total : ℕ) (w : A → ℕ) (xs : List A)
    → sum_by (λ x. pool * w x / total) xs * total + sum_by (λ x. pool * w x % total) xs
      ≡ pool * sum_by w xs
shares_total pool total w [] = omega arith
shares_total pool total w (x ∷ xs) =
    omega (arith, shares_total pool total w xs, div-add-mod (pool * w x) total)

pub remainders_bound :
    {A : Type 0} (pool total : ℕ) (w : A → ℕ) (xs : List A)
    → 0 < total
    → sum_by (λ x. pool * w x % total) xs + length xs ≤ length xs * total
remainders_bound pool total w [] h = omega arith
remainders_bound pool total w (x ∷ xs) h =
    omega (arith, remainders_bound pool total w xs h, mod-lt (pool * w x) h)

cancel_total : (q r p t n : ℕ) → 0 < t → q * t + r ≡ p * t → r + n ≤ n * t → (q ≤ p) × (p ≤ q + n)
cancel_total q r p t n h whole bound =
    (le_of_mul-le-mul_right {k = t} (omega arith) h, le_of_mul-le-mul_right {k = t} (omega arith) h)

-- An amount that is not negative.
abbrev pub IsCents : Entitlement → Type 0
IsCents e = e.amount_cents ≡ pos (cents e)

-- The sum of Allocate and of Round.AllocatedCents, where it fits an int64.
pub allocated_from-pos :
    (acc : ℕ) (es : List Entitlement)
    → All IsCents es
    → acc + sum_by cents es < 2 ^ 63
    → allocated_from (pos acc) es ≡ pos (acc + sum_by cents es)
unfolding allocated_from
allocated_from-pos acc [] h lt = ap pos (omega arith)
allocated_from-pos acc (e ∷ es) h lt =
    rw
      (
        h.0,
        add64-pos acc (cents e) (omega arith),
        allocated_from-pos (acc + cents e) es h.1 (omega arith),
      )
      (ap pos (omega arith))

quo-pos : (a b : ℕ) → quo (pos a) (pos b) ≡ pos (a / b)
unfolding quo
quo-pos a b = refl

rem-pos : (a b : ℕ) → rem (pos a) (pos b) ≡ pos (a % b)
unfolding rem
rem-pos a b = refl

pub share_le : (pool total w : ℕ) → w ≤ total → pool * w / total ≤ pool
share_le pool total w h = div-le_of_le-mul total (rw (mul_comm total pool) (mul-le-mul_left pool h))

module _ (credits : Credits) (pool total : ℕ) where
  -- The account has credits, and no more than there are.
  pub record IsHolder (account : Text) : Type 0 where
    pub has_credits : credits_of credits account ≡ pos (weight credits account)
    pub in_total : weight credits account ≤ total

  unfoldable pub share : Text → ℕ
  share account = pool * weight credits account / total

  unfoldable pub left : Text → ℕ
  left account = pool * weight credits account % total

  pub amount_cents-entitle :
      (account : Text)
      → pool < 2 ^ 63
      → IsHolder account
      → (entitle (pos pool) credits (pos total) account).amount_cents ≡ pos (share account)
  unfolding entitle share
  amount_cents-entitle account lt v =
      rw (v.has_credits, *ℤ-pos pool (weight credits account), quo-pos)
        (wrap64-pos _ (omega (arith, share_le pool total (weight credits account) v.in_total)))

  pub remainder_of-pos :
      (account : Text)
      → IsHolder account
      → remainder_of (pos pool) credits (pos total) account ≡ pos (left account)
  unfolding remainder_of left
  remainder_of-pos account v =
      rw (v.has_credits, *ℤ-pos pool (weight credits account)) (rem-pos _ total)

  pub map-remainder_of :
      (accounts : List Text)
      → All IsHolder accounts
      → map (remainder_of (pos pool) credits (pos total)) accounts
        ≡ map (λ a. pos (left a)) accounts
  map-remainder_of [] v = refl
  map-remainder_of (a ∷ accounts) v = rw (remainder_of-pos a v.0, map-remainder_of accounts v.1)

  pub entitle-IsCents :
      (accounts : List Text)
      → pool < 2 ^ 63
      → All IsHolder accounts
      → All IsCents (map (entitle (pos pool) credits (pos total)) accounts)
  entitle-IsCents [] lt v = tt
  entitle-IsCents (a ∷ accounts) lt v =
      (rw (amount_cents-entitle a lt v.0), entitle-IsCents accounts lt v.1)

  pub sum_by-entitle :
      (accounts : List Text)
      → pool < 2 ^ 63
      → All IsHolder accounts
      → sum_by cents (map (entitle (pos pool) credits (pos total)) accounts) ≡ sum_by share accounts
  sum_by-entitle [] lt v = refl
  sum_by-entitle (a ∷ accounts) lt v =
      rw (amount_cents-entitle a lt v.0, sum_by-entitle accounts lt v.1)

  -- What the shares leave of the pool: less than one cent for each account.
  pub leftover_bounds :
      (accounts : List Text)
      → 0 < total
      → sum_by (weight credits) accounts ≡ total
      → (sum_by share accounts ≤ pool) × (pool ≤ sum_by share accounts + length accounts)
  unfolding share left
  leftover_bounds accounts pos_total whole =
      cancel_total (sum_by share accounts) (sum_by left accounts) pool total (length accounts)
        pos_total (shares_total pool total (weight credits) accounts ∙ ap (λ s. pool * s) whole)
        (remainders_bound pool total (weight credits) accounts pos_total)
