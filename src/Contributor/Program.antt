-- ===== src/Contributor/Program.antt =====
-- contributor/program.go. The fields CreatedAt and UpdatedAt, which the document store sets, are
-- left out of every type of the package.
use blue.Prelude.{Text, is_empty, ℤ, pos, leb_ℤ, ltb_ℤ, ◌||◌}
use blue.Contributor.Result.{
  Result, ◌>>◌, refuse, wrap_error, program_missing_version, program_missing_currency,
  program_bps_out_of_range, program_bad_duration, program_bad_due_days, program_effective_from,
}
use blue.Contributor.Month.{validate_month, add_month}

pub record Program : Type 0 where
  pub version : Text
  pub currency : Text
  pub pool_bps : ℤ
  pub covered_receipts : Text
  pub credit_duration_rounds : ℤ
  pub payment_timetable : Text
  pub payout_due_days : ℤ
  pub calculation_version : ℤ
  pub effective_from : Text

-- Program.Validate
unfoldable pub validate_program : Program → Result (Unit {0})
validate_program p = do
  refuse (is_empty p.version) program_missing_version
  refuse (is_empty p.currency) program_missing_currency
  refuse (leb_ℤ p.pool_bps (pos 0) || ltb_ℤ (pos 10000) p.pool_bps) program_bps_out_of_range
  refuse (leb_ℤ p.credit_duration_rounds (pos 0)) program_bad_duration
  refuse (leb_ℤ p.payout_due_days (pos 0)) program_bad_due_days
  wrap_error program_effective_from (validate_month p.effective_from)

-- Program.ExpirationMonth
unfoldable pub expiration_month : Program → Text → Result Text
expiration_month p activation = add_month activation p.credit_duration_rounds
