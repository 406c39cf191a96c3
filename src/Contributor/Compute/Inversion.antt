-- ===== src/Contributor/Compute/Inversion.antt =====
-- What ComputeRound of contributor/engine.go has checked and computed when it returns a round.
use blue.Prelude.{
  ◌^◌, ◌<◌, ◌≡◌, sym, ◌∙◌, Text, ℤ, pos, add64, eqb_ℤ, Bool, true, false, not, List, [], ◌∷◌, All,
  arith,
}
use blue.Contributor.Result.{
  ok, wrap_error, award_invalid, >>=-eq-ok, >>-eq-ok, refuse-eq-ok, wrap_error-eq-ok,
}
use blue.Contributor.Month.{validate_month, before}
use blue.Contributor.Program.{Program, validate_program}
use blue.Contributor.Award.{Award, validate_award}
use blue.Contributor.Receipt.{Receipt}
use blue.Contributor.Round.{Entitlement, Round}
use blue.Contributor.Obligation.{Obligation}
use blue.Contributor.Engine.{
  Credits, active_credits, active_credits_from, add_award, pool_share_cents, allocate,
}
use mathlib.Core.Path.{subst}
use blue.Contributor.Engine.Tally.{IsSound, IsTally, granted, granted_to, active_credits-IsTally}
use blue.Contributor.Compute.{
  engine_version, due_date, sum_receipts, obligations_of, allocatable, round_of, compute_round,
}

pub record Computed (p : Program) (m : Text) (receipts : List Receipt) (awards : List Award)
    (carryforward : ℤ) (r : Round) (obligations : List Obligation) : Type 0 where
  pub program_valid : validate_program p ≡ ok tt
  pub version_matches : eqb_ℤ p.calculation_version engine_version ≡ true
  pub month_valid : validate_month m ≡ ok tt
  pub effective : before m p.effective_from ≡ false
  pub net : ℤ
  pub net_sum : sum_receipts p m (pos 0) receipts ≡ ok net
  pub credits : Credits
  pub active : active_credits awards m ≡ ok credits
  pub entitlements : List Entitlement
  pub allocated :
      allocate (allocatable (add64 carryforward (pool_share_cents p.pool_bps net))) credits
      ≡ ok entitlements
  pub due : ℤ
  pub due_at : due_date p m ≡ ok due
  pub round_eq : r ≡ round_of p m net carryforward credits entitlements
  pub obligations_eq : obligations ≡ obligations_of p m due entitlements

not-false : (b : Bool) → not b ≡ false → b ≡ true
not-false b h = ground arith

pub compute_round-Computed :
    (p : Program) (m : Text) (receipts : List Receipt) (awards : List Award) (carryforward : ℤ)
    (r : Round) (obligations : List Obligation)
    → compute_round p m receipts awards carryforward ≡ ok (r, obligations)
    → Computed p m receipts awards carryforward r obligations
unfolding compute_round
compute_round-Computed p m receipts awards carryforward r obligations h =
    let (valid, h1) = >>-eq-ok (validate_program p) _ h in
    let (version, h2) = refuse-eq-ok (not (eqb_ℤ p.calculation_version engine_version)) _ _ h1 in
    let (month, h3) = >>-eq-ok (validate_month m) _ h2 in
    let (early, h4) = refuse-eq-ok (before m p.effective_from) _ _ h3 in
    let (net, sums, h5) = >>=-eq-ok (sum_receipts p m (pos 0) receipts) _ h4 in
    let (credits, active, h6) = >>=-eq-ok (active_credits awards m) _ h5 in
    let (es, allocated, h7) =
      >>=-eq-ok
        (allocate (allocatable (add64 carryforward (pool_share_cents p.pool_bps net))) credits) _
        h6 in
    let (due, at, h8) = >>=-eq-ok (due_date p m) _ h7 in
    record {
      program_valid = valid;
      version_matches = not-false _ version;
      month_valid = month;
      effective = early;
      net = net;
      net_sum = sums;
      credits = credits;
      active = active;
      entitlements = es;
      allocated = allocated;
      due = due;
      due_at = at;
      round_eq = cc h8;
      obligations_eq = cc h8;
    }

add_award-IsSound :
    (credits : Credits) (a : Award) (m : Text) {next : Credits}
    → add_award credits a m ≡ ok next
    → IsSound a
unfolding add_award
add_award-IsSound credits a m h approved =
    wrap_error-eq-ok (award_invalid a.id) (validate_award a)
      (>>-eq-ok (wrap_error (award_invalid a.id) (validate_award a)) _ (rw approved at h)).0

active_credits_from-IsSound :
    (credits : Credits) (awards : List Award) (m : Text) {found : Credits}
    → active_credits_from credits awards m ≡ ok found
    → All IsSound awards
unfolding active_credits_from
active_credits_from-IsSound credits [] m h = tt
active_credits_from-IsSound credits (a ∷ awards) m h =
    let (next, added, rest) = >>=-eq-ok (add_award credits a m) _ h in
    (add_award-IsSound credits a m added, active_credits_from-IsSound next awards m rest)

-- ActiveCredits returns credits only where every approved award is well formed.
pub active_credits-IsSound :
    (awards : List Award) (m : Text) {found : Credits}
    → active_credits awards m ≡ ok found
    → All IsSound awards
unfolding active_credits
active_credits-IsSound awards m h = active_credits_from-IsSound [] awards m h

-- The credits of a round are the splits of the approved awards active in its month.
pub credits-IsTally :
    (p : Program) (m : Text) (receipts : List Receipt) (awards : List Award) (carryforward : ℤ)
    (r : Round) (obligations : List Obligation)
    (c : Computed p m receipts awards carryforward r obligations)
    → granted awards m < 2 ^ 63
    → IsTally c.credits (granted awards m) (granted_to awards m)
credits-IsTally p m receipts awards carryforward r obligations c fits =
    let (found, returned, tally) =
      active_credits-IsTally awards m (active_credits-IsSound awards m c.active) fits in
    let same : found ≡ c.credits = cc (sym returned ∙ c.active) in
    subst (λ d. IsTally d (granted awards m) (granted_to awards m)) same tally
