-- ===== src/Contributor/Engine/Allocation.antt =====
-- What Allocate of contributor/engine.go promises.
use blue.Prelude.{
  ℕ, ◌+◌, ◌*◌, ◌/◌, ◌^◌, ◌≤◌, ◌<◌, ◌≡◌, refl, sym, ◌∙◌, Text, ℤ, pos, negsuc, ltb_ℤ, List, [], ◌∷◌,
  ◌++◌, some, true, get_elem?, sum_by, arith,
}
use blue.Contributor.Result.{ok, err, negative_credits}
use blue.Contributor.Round.{Entitlement}
use blue.Contributor.Engine.{Credits, gather, allocate}
use blue.Contributor.Engine.Shares.{cents, weight, share}
use blue.Contributor.Engine.Holders.{value, AreCredits, holders-IsHolder, not_negative, gather-eq}
use blue.Contributor.Engine.Exact.{
  IsAllocatable, sorted_holders, sum_by-sorted_holders, allocate-eq,
}
use blue.Contributor.Engine.Fair.{given_le, result-Entitled, distribute_monotone}

-- What an entitlement of a map of credits may be: it stands at the place of its account in the
-- sorted accounts that have credits, it records the account's credits, and its amount is the share
-- rounded down, or one cent more.
pub record IsQuota (credits : Credits) (pool i : ℕ) (e : Entitlement) : Type 0 where
  pub in_order : get_elem? (sorted_holders credits) i ≡ some e.account
  pub recorded : e.credits ≡ pos (weight credits e.account)
  pub at_least : pool * weight credits e.account / sum_by value credits ≤ cents e
  pub at_most : cents e ≤ pool * weight credits e.account / sum_by value credits + 1

-- Every entitlement that Allocate returns, for a pool that fits an int64 and credits without negative
-- entries, some of them positive, with a sum that fits an int64, is a quota of its account.
pub allocate-IsQuota :
    (credits : Credits) (pool : ℕ) (es : List Entitlement) (i : ℕ) {e : Entitlement}
    → IsAllocatable credits
    → pool < 2 ^ 63
    → allocate (pos pool) credits ≡ ok es
    → get_elem? es i ≡ some e
    → IsQuota credits pool i e
unfolding share
allocate-IsQuota credits pool es i {e} v fits h at =
    let total = sum_by value credits in
    let holder = holders-IsHolder pool credits (sorted_holders credits) v.nonnegative in
    let whole = sum_by-sorted_holders credits v in
    let r =
      result-Entitled credits pool total (sorted_holders credits) fits v.some_credits holder whole
        es i (sym (allocate-eq credits v pool) ∙ h) at in
    let most =
      given_le credits pool total (sorted_holders credits) fits v.some_credits holder whole i in
    record {
      in_order = r.at_index;
      recorded = r.own_credits;
      at_least = omega (arith, r.amount);
      at_most = omega (arith, r.amount);
    }

-- Of two entitlements that Allocate returns, for a pool that fits an int64 and credits without
-- negative entries, some of them positive, with a sum that fits an int64, the one of the account with
-- fewer credits is not the larger.
pub allocate_monotone :
    (credits : Credits) (pool : ℕ) (es : List Entitlement) (i j : ℕ) {d e : Entitlement}
    → IsAllocatable credits
    → pool < 2 ^ 63
    → allocate (pos pool) credits ≡ ok es
    → get_elem? es i ≡ some d
    → get_elem? es j ≡ some e
    → weight credits d.account < weight credits e.account
    → cents d ≤ cents e
allocate_monotone credits pool es i j v fits h =
    distribute_monotone credits pool (sum_by value credits) (sorted_holders credits) fits
      v.some_credits (holders-IsHolder pool credits (sorted_holders credits) v.nonnegative)
      (sum_by-sorted_holders credits v) es i j (sym (allocate-eq credits v pool) ∙ h)

is_negative : (n : ℕ) → ltb_ℤ (negsuc n) (pos 0) ≡ true
is_negative n = ground arith

gather_stops :
    (before : Credits) (accounts : List Text) (total : ℤ) (after : Credits) (account : Text) (n : ℕ)
    → AreCredits before
    → gather accounts total (before ++ (account, negsuc n) ∷ after) ≡ err (negative_credits account)
unfolding gather
gather_stops [] accounts total after account n v = rw (is_negative n)
gather_stops ((k, c) ∷ before) accounts total after account n v =
    rw (v.0, not_negative (value (k, c))) (gather_stops before _ _ after account n v.1)

-- On a pool that is not negative, Allocate refuses credits that hold a negative entry, and names the
-- first such account that `range` meets.
pub allocate_refuses :
    (credits after : Credits) (account : Text) (n pool : ℕ)
    → AreCredits credits
    → allocate (pos pool) (credits ++ (account, negsuc n) ∷ after) ≡ err (negative_credits account)
unfolding allocate
allocate_refuses credits after account n pool v =
    rw (not_negative pool, gather_stops credits [] (pos 0) after account n v) refl

-- Where no account has credits, nothing is allocated.
pub allocate_nothing :
    (credits : Credits) (pool : ℕ)
    → AreCredits credits
    → sum_by value credits ≡ 0
    → allocate (pos pool) credits ≡ ok []
unfolding allocate
allocate_nothing credits pool v none =
    rw (not_negative pool, gather-eq [] 0 credits v (omega arith), none) refl
