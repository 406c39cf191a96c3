-- ===== src/Contributor/Engine/Exact.antt =====
-- Allocate in contributor/engine.go pays out the whole pool.
use blue.Prelude.{
  ℕ, ◌+◌, ◌-◌, ◌^◌, ◌<◌, ◌≡◌, sym, ap, ◌∙◌, Text, text_lt, pos, eqb_ℤ, sub64-pos, false, List, [],
  map, length, length-map, All, sum_by, stable_sort, sum_by-stable_sort, arith,
}
use native.Mathlib.Nat.{zero-add}
use blue.Contributor.Result.{Result, ok}
use blue.Contributor.Round.{Entitlement}
use blue.Contributor.Engine.{
  Credits, entitle, remainder_of, by_remainder, give, distribute, allocate,
}
use blue.Contributor.Engine.Shares.{
  cents, weight, IsCents, IsHolder, share, allocated_from-pos, entitle-IsCents, sum_by-entitle,
  leftover_bounds,
}
use blue.Contributor.Engine.Leftover.{Given, give-Given, length-by_remainder, by_remainder-below}
use blue.Contributor.Engine.Holders.{
  value, DistinctKeys, AreCredits, holders, not_negative, gather-eq, holders-IsHolder,
  sum_by-holders,
}

-- The amounts are not negative, and their sum is the pool.
pub record PaysOut (pool : ℕ) (r : Result (List Entitlement)) : Type 0 where
  pub entitlements : List Entitlement
  pub returned : r ≡ ok entitlements
  pub amounts : All IsCents entitlements
  pub whole_pool : sum_by cents entitlements ≡ pool

-- Accounts whose shares of the pool leave less than a cent each.
module _ (credits : Credits) (pool total : ℕ) (accounts : List Text) (fits : pool < 2 ^ 63)
    (positive : 0 < total) (valid : All (IsHolder credits pool total) accounts)
    (whole : sum_by (weight credits) accounts ≡ total) where
  abbrev pub shares : List Entitlement
  shares = map (entitle (pos pool) credits (pos total)) accounts

  abbrev pub order : List ℕ
  order = by_remainder (map (remainder_of (pos pool) credits (pos total)) accounts)

  abbrev pub rest : ℕ
  rest = pool - sum_by (share credits pool total) accounts

  sum_by-shares : sum_by cents shares ≡ sum_by (share credits pool total) accounts
  sum_by-shares = sum_by-entitle credits pool total accounts fits valid

  length-shares : length shares ≡ length accounts
  length-shares = length-map (entitle (pos pool) credits (pos total)) accounts

  length-remainders :
      length (map (remainder_of (pos pool) credits (pos total)) accounts) ≡ length accounts
  length-remainders = length-map (remainder_of (pos pool) credits (pos total)) accounts

  pub distribute-Given : Given rest order shares
  distribute-Given =
      let bounds = leftover_bounds credits pool total accounts positive whole in
      give-Given rest order shares
        (omega (
          arith,
          length-by_remainder (map (remainder_of (pos pool) credits (pos total)) accounts),
          length-remainders,
        ))
        (by_remainder-below _ (length shares) (length-remainders ∙ sym length-shares))
        (entitle-IsCents credits pool total accounts fits valid) (omega (arith, sum_by-shares))

  pub distribute-eq : distribute (pos pool) credits (pos total) accounts ≡ give rest order shares
  unfolding distribute
  distribute-eq =
      let bounds = leftover_bounds credits pool total accounts positive whole in
      rw
        (
          allocated_from-pos 0 shares (entitle-IsCents credits pool total accounts fits valid)
              (omega (arith, sum_by-shares)),
          sub64-pos pool (0 + sum_by cents shares) (omega (arith, sum_by-shares)) fits,
        )
        (ap (λ k. give k order shares) (omega (arith, sum_by-shares)))

  pub distribute-PaysOut : PaysOut pool (distribute (pos pool) credits (pos total) accounts)
  distribute-PaysOut =
      let given = distribute-Given in
      let bounds = leftover_bounds credits pool total accounts positive whole in
      record {
        entitlements = given.result;
        returned = distribute-eq ∙ given.returned;
        amounts = given.amounts;
        whole_pool = omega (arith, given.sum, sum_by-shares);
      }

not_zero_pos : (n : ℕ) → 0 < n → eqb_ℤ (pos n) (pos 0) ≡ false
not_zero_pos n h = ground arith

abbrev pub sorted_holders : Credits → List Text
sorted_holders credits = stable_sort text_lt (holders credits)

-- A map of credits whose sum fits an int64, and is not zero.
pub record IsAllocatable (credits : Credits) : Type 0 where
  pub distinct : DistinctKeys credits
  pub nonnegative : AreCredits credits
  pub sum_fits : sum_by value credits < 2 ^ 63
  pub some_credits : 0 < sum_by value credits

module _ (credits : Credits) (v : IsAllocatable credits) where
  pub sum_by-sorted_holders :
      sum_by (weight credits) (sorted_holders credits) ≡ sum_by value credits
  sum_by-sorted_holders =
      sum_by-stable_sort text_lt (weight credits) (holders credits)
      ∙ sum_by-holders credits v.distinct v.nonnegative

  pub allocate-eq :
      (pool : ℕ)
      → allocate (pos pool) credits
        ≡ distribute (pos pool) credits (pos (sum_by value credits)) (sorted_holders credits)
  unfolding allocate
  allocate-eq pool = rw (
    not_negative pool,
    gather-eq [] 0 credits v.nonnegative (omega (arith, v.sum_fits)),
    zero-add,
    not_zero_pos (sum_by value credits) v.some_credits,
  )

  -- On a pool and credits that fit an int64, and some credits, Allocate returns entitlements whose
  -- amounts are not negative and add up to the pool exactly.
  pub allocate-PaysOut : (pool : ℕ) → pool < 2 ^ 63 → PaysOut pool (allocate (pos pool) credits)
  allocate-PaysOut pool fits = rw (allocate-eq pool) (
      distribute-PaysOut credits pool (sum_by value credits) (sorted_holders credits) fits
        v.some_credits (holders-IsHolder pool credits (sorted_holders credits) v.nonnegative)
        sum_by-sorted_holders)
