-- ===== src/Contributor/Verify.antt =====
-- contributor/verify.go
pub mod Rebuild
pub mod RoundTrip
use blue.Prelude.{
  ℕ, Text, text_eq, ℤ, pos, add64, sub64, eqb_ℤ, Bool, true, false, not, ◌&&◌, ◌==◌, List, [], ◌∷◌,
  ◌++◌, length,
}
use blue.Contributor.Result.{
  Result, ok, err, panic, ◌>>=◌, ◌>>◌, refuse, wrap_error, policy_differs, calculation_differs,
  currency_differs, pool_differs, duplicate_account, denominator_differs, count_differs,
  entitlement_differs, allocation_failed, unallocated_differs,
}
use blue.Contributor.Month.{validate_month}
use blue.Contributor.Program.{Program, validate_program}
use blue.Contributor.Round.{Entitlement, Round, allocated_cents}
use blue.Contributor.Engine.{Credits, pool_share_cents, allocate}
use blue.Contributor.Engine.Holders.{holds}
use blue.Contributor.Compute.{engine_version, allocatable}

-- Statement
pub record Statement : Type 0 where
  pub program : Program
  pub round : Round

-- The loop of VerifyRound over the published entitlements: the map of credits, and its sum.
unfoldable pub claimed : Credits → ℤ → List Entitlement → Result (Credits × ℤ)
claimed credits total [] = ok (credits, total)
claimed credits total (e ∷ es) =
    refuse (holds credits e.account) duplicate_account
    >> claimed (credits ++ (e.account, e.credits) ∷ []) (add64 total e.credits) es

abbrev pub entitlement_eq : Entitlement → Entitlement → Bool
entitlement_eq d e =
    text_eq d.account e.account && eqb_ℤ d.credits e.credits && eqb_ℤ d.amount_cents e.amount_cents

-- The loop that compares the entitlements in turn; a published list that is too short is an index
-- out of range.
unfoldable pub compare_entitlements : List Entitlement → List Entitlement → Result (Unit {0})
compare_entitlements [] published = ok tt
compare_entitlements (e ∷ es) [] = panic
compare_entitlements (e ∷ es) (d ∷ published) =
    refuse (not (entitlement_eq e d)) entitlement_differs >> compare_entitlements es published

-- VerifyRound
unfoldable pub verify_round : Statement → Result (Unit {0})
verify_round s =
    let p = s.program in
    let r = s.round in
    let pool = add64 r.carryforward_cents (pool_share_cents p.pool_bps r.net_receipts_cents) in
    do
      validate_program p
      validate_month r.month
      refuse (not (text_eq r.policy_version p.version)) policy_differs
      refuse (not (eqb_ℤ r.calculation_version engine_version)) calculation_differs
      refuse (not (text_eq r.currency p.currency)) currency_differs
      refuse (not (eqb_ℤ pool r.pool_cents)) pool_differs
      found ← claimed [] (pos 0) r.entitlements
      refuse (not (eqb_ℤ found.1 r.total_credits)) denominator_differs
      es ← wrap_error allocation_failed (allocate (allocatable pool) found.0)
      refuse (not (length es == length r.entitlements)) count_differs
      compare_entitlements es r.entitlements
      refuse (not (eqb_ℤ (sub64 pool (allocated_cents r)) r.unallocated_cents)) unallocated_differs
