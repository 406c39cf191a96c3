-- ===== src/Contributor/Verify/RoundTrip.antt =====
-- VerifyRound of contributor/verify.go accepts what ComputeRound of contributor/engine.go computes.
use blue.Prelude.{
  ℕ, ◌+◌, ◌^◌, ◌<◌, ◌≡◌, refl, sym, ap, ◌∙◌, Text, text_eq_refl, ℤ, pos, pos_part, eqb_ℤ_refl,
  add64, sub64, add64-pos, true, false, List, [], ◌∷◌, length, All, sum_by, arith, ◌==◌,
}
use mathlib.Core.Path.{ap₂}
use blue.Contributor.Result.{ok}
use blue.Contributor.Program.{Program}
use blue.Contributor.Award.{Award}
use blue.Contributor.Receipt.{Receipt}
use blue.Contributor.Round.{Entitlement, Round, allocated_from, allocated_cents}
use blue.Contributor.Obligation.{Obligation}
use blue.Contributor.Engine.{Credits, credits_of, pool_share_cents, allocate}
use blue.Contributor.Engine.Holders.{value, holds, DistinctKeys, AreCredits}
use blue.Contributor.Engine.Exact.{sorted_holders}
use blue.Contributor.Engine.Deterministic.{SameMap, sum-same, allocate_deterministic}
use blue.Contributor.Engine.Tally.{granted}
use blue.Contributor.Compute.{allocatable, sum_credits, round_of, compute_round}
use blue.Contributor.Compute.Inversion.{Computed, credits-IsTally, compute_round-Computed}
use blue.Contributor.Verify.{claimed, compare_entitlements, verify_round}
use blue.Contributor.Verify.Rebuild.{
  entries, table, accounts_of, entries-allocate, rebuilt-SameMap, rebuilt-Distinct,
  rebuilt-DistinctKeys, rebuilt-AreCredits, claimed-eq,
}

compare_entitlements_refl : (es : List Entitlement) → compare_entitlements es es ≡ ok tt
unfolding compare_entitlements
compare_entitlements_refl [] = refl
compare_entitlements_refl (e ∷ es) =
    rw (text_eq_refl e.account, eqb_ℤ_refl e.credits, eqb_ℤ_refl e.amount_cents)
      (compare_entitlements_refl es)

sum_credits-pos :
    (total : ℕ) (credits : Credits)
    → AreCredits credits
    → total + sum_by value credits < 2 ^ 63
    → sum_credits (pos total) credits ≡ pos (total + sum_by value credits)
unfolding sum_credits
sum_credits-pos total [] v fits = ap pos (omega arith)
sum_credits-pos total ((k, c) ∷ credits) v fits =
    rw (v.0, add64-pos total (pos_part c) (omega arith))
      (sum_credits-pos (total + pos_part c) credits v.1 (omega arith) ∙ ap pos (omega arith))

==_refl : (n : ℕ) → (n == n) ≡ true
==_refl n = ground arith

allocatable-pos : (z : ℤ) → allocatable z ≡ pos (pos_part (allocatable z))
allocatable-pos z = ground arith

head_account : Credits → Text
head_account [] = []
head_account ((k, c) ∷ credits) = k

accounts_of-entries :
    (f : Text → ℤ) (es : List Entitlement) (xs : List Text)
    → entries es ≡ table f xs
    → accounts_of es ≡ xs
unfolding head_account
accounts_of-entries f [] [] h = refl
accounts_of-entries f [] (x ∷ xs) h = absurd (cc h)
accounts_of-entries f (e ∷ es) [] h = absurd (cc h)
accounts_of-entries f (e ∷ es) (x ∷ xs) h =
    ap₂ ◌∷◌ (ap head_account h) (accounts_of-entries f es xs (cc h))

nothing_held : (es : List Entitlement) → All (λ e. holds [] e.account ≡ false) es
nothing_held [] = tt
nothing_held (e ∷ es) = (refl, nothing_held es)

-- Entitlements that were allocated from a map of credits.
module _ (credits : Credits) (n : ℕ) (es : List Entitlement) (distinct : DistinctKeys credits)
    (v : AreCredits credits) (fits : sum_by value credits < 2 ^ 63)
    (h : allocate (pos n) credits ≡ ok es) where
  rebuilt : entries es ≡ table (credits_of credits) (sorted_holders credits)
  rebuilt = entries-allocate credits n v fits h

  pub entries-AreCredits : AreCredits (entries es)
  entries-AreCredits = rw rebuilt (rebuilt-AreCredits credits distinct v (sorted_holders credits))

  same : SameMap (entries es) credits
  same = rw rebuilt (rebuilt-SameMap credits distinct v)

  entries-DistinctKeys : DistinctKeys (entries es)
  entries-DistinctKeys = rw rebuilt (rebuilt-DistinctKeys credits distinct v)

  pub sum-entries : sum_by value (entries es) ≡ sum_by value credits
  sum-entries =
      sum-same (entries es) credits same entries-DistinctKeys distinct entries-AreCredits v

  pub claimed-entries : claimed [] (pos 0) es ≡ ok (entries es, pos (sum_by value credits))
  claimed-entries =
      claimed-eq [] 0 es
        (rw (accounts_of-entries (credits_of credits) es (sorted_holders credits) rebuilt)
          (rebuilt-Distinct credits distinct v))
        (nothing_held es) entries-AreCredits (omega (arith, sum-entries))
      ∙ ap (λ (k : ℕ). ok (entries es, pos k)) (omega (arith, sum-entries))

  pub allocate-entries : allocate (pos n) (entries es) ≡ ok es
  allocate-entries =
      allocate_deterministic (entries es) credits n same entries-DistinctKeys distinct
        entries-AreCredits v (omega (arith, sum-entries))
      ∙ h

verify-round_of :
    (p : Program) (m : Text) (receipts : List Receipt) (awards : List Award) (carryforward : ℤ)
    (r : Round) (obligations : List Obligation)
    → (c : Computed p m receipts awards carryforward r obligations) → DistinctKeys c.credits
    → AreCredits c.credits
    → sum_by value c.credits < 2 ^ 63
    → verify_round
        (record { program = p; round = round_of p m c.net carryforward c.credits c.entitlements })
      ≡ ok tt
unfolding verify_round round_of allocated_cents
verify-round_of p m receipts awards carryforward r obligations c distinct v fits =
    let pool : ℤ = add64 carryforward (pool_share_cents p.pool_bps c.net) in
    let n : ℕ = pos_part (allocatable pool) in
    let h : allocate (pos n) c.credits ≡ ok c.entitlements =
      ap (λ z. allocate z c.credits) (sym (allocatable-pos pool)) ∙ c.allocated in
    let total : sum_credits (pos 0) c.credits ≡ pos (sum_by value c.credits) =
      sum_credits-pos 0 c.credits v (omega arith) ∙ ap pos (omega arith) in
    rw
      (
        c.program_valid,
        c.month_valid,
        text_eq_refl p.version,
        text_eq_refl p.currency,
        eqb_ℤ_refl pool,
        claimed-entries c.credits n c.entitlements distinct v fits h,
        total,
        allocatable-pos pool,
        allocate-entries c.credits n c.entitlements distinct v fits h,
      )
      (rw
        (
          eqb_ℤ_refl (pos (sum_by value c.credits)),
          ==_refl (length c.entitlements),
          compare_entitlements_refl c.entitlements,
          eqb_ℤ_refl (sub64 pool (allocated_from (pos 0) c.entitlements)),
        )
        refl)

-- A round that ComputeRound returns, with credits that fit an int64, passes VerifyRound under its
-- program.
pub verify-compute_round :
    (p : Program) (m : Text) (receipts : List Receipt) (awards : List Award) (carryforward : ℤ)
    (r : Round) (obligations : List Obligation)
    → compute_round p m receipts awards carryforward ≡ ok (r, obligations)
    → granted awards m < 2 ^ 63
    → verify_round (record { program = p; round = r }) ≡ ok tt
verify-compute_round p m receipts awards carryforward r obligations h fits =
    let c = compute_round-Computed p m receipts awards carryforward r obligations h in
    let tally = credits-IsTally p m receipts awards carryforward r obligations c fits in
    rw c.round_eq (
      verify-round_of p m receipts awards carryforward r obligations c tally.distinct
        tally.nonnegative (omega (arith, tally.sum)))
