-- ===== src/Contributor/Compute.antt =====
-- DueDate and ComputeRound of contributor/engine.go.
pub mod Balance
pub mod Inversion
use blue.Prelude.{
  ℕ, ◌+◌, ◌*◌, ◌/◌, ◌%◌, Text, text_eq, ℤ, pos, negsuc, ◌+ℤ◌, ◌*ℤ◌, add64, sub64, ltb_ℤ, leb_ℤ,
  eqb_ℤ, Bool, true, false, not, List, [], ◌∷◌, if◌then◌else◌,
}
use blue.Contributor.Result.{
  Result, ok, err, panic, ◌>>=◌, ◌>>◌, refuse, version_mismatch, not_effective, foreign_receipt,
  foreign_currency,
}
use blue.Contributor.Month.{MonthStart, validate_month, month_time, month_index, month_at, before}
use blue.Contributor.Clock.{days_before, midnight, zero_time}
use blue.Contributor.Program.{Program, validate_program}
use blue.Contributor.Award.{Award}
use blue.Contributor.Receipt.{Receipt, validate_receipt, net_cents}
use blue.Contributor.Round.{Entitlement, Round, allocated_from, allocated_cents}
use blue.Contributor.Obligation.{Obligation, earned}
use blue.Contributor.Engine.{Credits, active_credits, pool_share_cents, allocate}

-- CalculationVersion
abbrev pub engine_version : ℤ
engine_version = pos 1

-- The first month after the calendar quarter of a month.
unfoldable pub quarter_end : MonthStart → MonthStart
quarter_end t = month_at (t.year *ℤ pos 12 +ℤ pos (t.month / 3 * 3 + 3))

-- DueDate
unfoldable pub due_date : Program → Text → Result ℤ
due_date p m = do t ← month_time m; ok (midnight (days_before (quarter_end t) +ℤ p.payout_due_days))

-- The loop of ComputeRound over the receipts.
unfoldable pub sum_receipts : Program → Text → ℤ → List Receipt → Result ℤ
sum_receipts p m net [] = ok net
sum_receipts p m net (r ∷ receipts) =
    let rest = sum_receipts p m (add64 net (net_cents r)) receipts in
    do
      validate_receipt r
      refuse (not (text_eq r.month m)) foreign_receipt
      refuse (not (text_eq r.currency p.currency)) foreign_currency
      rest

-- The sum of the values of a map.
unfoldable pub sum_credits : ℤ → Credits → ℤ
sum_credits total [] = total
sum_credits total ((account, c) ∷ credits) = sum_credits (add64 total c) credits

-- The obligations of the entitlements that are worth a cent or more.
unfoldable pub obligations_of : Program → Text → ℤ → List Entitlement → List Obligation
obligations_of p m due [] = []
obligations_of p m due (e ∷ es) =
    let rest = obligations_of p m due es in
    if leb_ℤ e.amount_cents (pos 0)
    then rest
    else record {
      account = e.account;
      month = m;
      amount_cents = e.amount_cents;
      currency = p.currency;
      due_date = due;
      state = earned;
      provider_transfer_ref = [];
      history = [];
    }
      ∷ rest

abbrev pub allocatable : ℤ → ℤ
allocatable pool = if ltb_ℤ pool (pos 0) then pos 0 else pool

-- The round that ComputeRound builds from the sums and the entitlements.
unfoldable pub round_of : Program → Text → ℤ → ℤ → Credits → List Entitlement → Round
round_of p m net carryforward credits es =
    let pool = add64 carryforward (pool_share_cents p.pool_bps net) in
    record {
      month = m;
      policy_version = p.version;
      calculation_version = engine_version;
      currency = p.currency;
      net_receipts_cents = net;
      carryforward_cents = carryforward;
      pool_cents = pool;
      total_credits = sum_credits (pos 0) credits;
      entitlements = es;
      unallocated_cents = sub64 pool (allocated_from (pos 0) es);
      closed_at = zero_time;
      closed_by = [];
    }

-- ComputeRound
unfoldable pub compute_round :
    Program → Text → List Receipt → List Award → ℤ → Result (Round × List Obligation)
compute_round p m receipts awards carryforward = do
  validate_program p
  refuse (not (eqb_ℤ p.calculation_version engine_version)) version_mismatch
  validate_month m
  refuse (before m p.effective_from) not_effective
  net ← sum_receipts p m (pos 0) receipts
  credits ← active_credits awards m
  es ← allocate (allocatable (add64 carryforward (pool_share_cents p.pool_bps net))) credits
  due ← due_date p m
  ok (round_of p m net carryforward credits es, obligations_of p m due es)
