-- ===== src/Contributor/Examples.antt =====
-- Runs of the package contributor on small inputs, and its theorems at such inputs.
use blue.Prelude.{
  false, true, decimal, ℕ, ◌+◌, ◌*◌, ◌≤◌, ◌<◌, ◌≡◌, refl, Text, text, text_eq, text_eq→eq, text_lt,
  Bool-cases, inl, inr, none, ◌⊎◌, All, ℤ, pos, quo, rem, ◌-ℤ◌, ◌*ℤ◌, add64, sub64, wrap64,
  stable_sort, List, [], ◌∷◌, some, ◌+ℤ◌, arith,
}
use mathlib.Core.Path.{subst}
use mathlib.Core.Option
use blue.Contributor.Result.{ok, err, illegal_transition, month_not_parsed}
use blue.Contributor.Month.{
  MonthStart, four_digits, month_index, parse_time, month_time, month_of, month_at, add_months,
  add_month, validate_month, before, is_month_text, format_year,
}
use blue.Contributor.Month.Canonical.{validate_month_exact}
use blue.Contributor.Month.Shift.{add_month_exact}
use blue.Contributor.Obligation.{
  ObligationState, Obligation, earned, owed, initiated, settled, id_of, is_legal, transitions,
  transition,
}
use blue.Contributor.Obligation.Lifecycle.{
  Step, start, transition_exact, run, IsAudited, run-IsAudited, pays_once, moved, is_settlement,
  is_bounce, is_failure, is_initiation, one_if, run_settles_once,
}
use blue.Contributor.Program.{Program, validate_program}
use blue.Contributor.Receipt.{
  Receipt, tax, validate_receipt, validate_adjustments, net_cents, net_from,
}
use blue.Contributor.Award.{
  Award, AwardStatus, validate_award, validate_splits, contains, active_in,
}
use blue.Contributor.Clock.{
  day, zero_time, midnight, days_before, days_at, days_before_year, days_before_month, is_leap,
}
use blue.Contributor.Compute.{
  due_date, quarter_end, sum_receipts, sum_credits, obligations_of, round_of, compute_round,
}
use blue.Contributor.Compute.Balance.{Balanced, compute_round-Balanced}
use blue.Contributor.Verify.{verify_round}
use blue.Contributor.Verify.RoundTrip.{verify-compute_round}
use blue.Contributor.Round.{Round, Entitlement, allocated_from}
use blue.Contributor.Engine.{
  Credits, add_splits, add_credits, add_award, active_credits_from, pool_share_cents,
  active_credits, credits_of, gather, entitle, remainder_of, by_remainder, give, distribute,
  allocate,
}
use blue.Contributor.Engine.Deterministic.{SameMap, allocate_deterministic}
use blue.Contributor.Engine.Shares.{cents, weight}
use blue.Contributor.Engine.Holders.{DistinctKeys}
use blue.Contributor.Engine.Exact.{PaysOut, IsAllocatable, allocate-PaysOut}
use blue.Contributor.Engine.Tally.{IsTally, IsSound, granted, granted_to, active_credits-IsTally}
use blue.Contributor.Engine.Allocation.{IsQuota, allocate-IsQuota, allocate_monotone}

-- 100 cents among 1, 1 and 1 credits: the spare cent goes to the account that sorts first.
abbrev thirds : Credits
thirds = (text "b", pos 1) ∷ (text "c", pos 1) ∷ (text "zero", pos 0) ∷ (text "a", pos 1) ∷ []

abbrev paid : List Entitlement
paid =
    record { account = text "a"; credits = pos 1; amount_cents = pos 34 }
    ∷ record { account = text "b"; credits = pos 1; amount_cents = pos 33 }
    ∷ record { account = text "c"; credits = pos 1; amount_cents = pos 33 }
    ∷ []

allocate-thirds : allocate (pos 100) thirds ≡ ok paid
unfolding allocate gather distribute entitle remainder_of by_remainder give credits_of quo rem ◌*ℤ◌
    wrap64 add64 sub64 stable_sort text_lt text_eq allocated_from
allocate-thirds = refl

abbrev thirds_IsAllocatable : IsAllocatable thirds
unfolding text_eq
thirds_IsAllocatable = record {
  distinct = (refl, (refl, (refl, (refl, tt))));
  nonnegative = (refl, (refl, (refl, (refl, tt))));
  sum_fits = omega arith;
  some_credits = omega arith;
}

allocate-PaysOut_example : PaysOut 100 (allocate (pos 100) thirds)
allocate-PaysOut_example = allocate-PaysOut thirds thirds_IsAllocatable 100 (omega arith)

allocate-IsQuota_example :
    IsQuota thirds 100 0 (record { account = text "a"; credits = pos 1; amount_cents = pos 34 })
allocate-IsQuota_example =
    allocate-IsQuota thirds 100 paid 0 thirds_IsAllocatable (omega arith) allocate-thirds refl

-- One account with twice the credits of another.
abbrev double : Credits
double = (text "x", pos 1) ∷ (text "y", pos 2) ∷ []

abbrev double' : Credits
double' = (text "y", pos 2) ∷ (text "x", pos 1) ∷ []

abbrev x_paid : Entitlement
x_paid = record { account = text "x"; credits = pos 1; amount_cents = pos 33 }

abbrev y_paid : Entitlement
y_paid = record { account = text "y"; credits = pos 2; amount_cents = pos 67 }

allocate-double : allocate (pos 100) double ≡ ok (x_paid ∷ y_paid ∷ [])
unfolding allocate gather distribute entitle remainder_of by_remainder give credits_of quo rem ◌*ℤ◌
    wrap64 add64 sub64 stable_sort text_lt text_eq allocated_from
allocate-double = refl

abbrev double_IsAllocatable : IsAllocatable double
unfolding text_eq
double_IsAllocatable = record {
  distinct = (refl, (refl, tt));
  nonnegative = (refl, (refl, tt));
  sum_fits = omega arith;
  some_credits = omega arith;
}

double'-DistinctKeys : DistinctKeys double'
unfolding text_eq
double'-DistinctKeys = (refl, (refl, tt))

lighter : weight double (text "x") < weight double (text "y")
unfolding credits_of text_eq
lighter = omega arith

allocate_monotone_example : 33 ≤ 67
allocate_monotone_example =
    allocate_monotone double 100 (x_paid ∷ y_paid ∷ []) 0 1 {d = x_paid} {e = y_paid}
      double_IsAllocatable (omega arith) allocate-double refl refl lighter

at_x : credits_of double (text "x") ≡ credits_of double' (text "x")
unfolding credits_of text_eq
at_x = refl

double-SameMap : SameMap double double'
unfolding credits_of
double-SameMap account = elim (Bool-cases (text_eq (text "x") account)) [
  | inl e ↦
      subst (λ a. credits_of double a ≡ credits_of double' a) (text_eq→eq (text "x") account e) at_x
  | inr e ↦ rw e refl
]

allocate_deterministic_example : allocate (pos 7) double ≡ allocate (pos 7) double'
allocate_deterministic_example =
    allocate_deterministic double double' 7 double-SameMap double_IsAllocatable.distinct
      double'-DistinctKeys (refl, (refl, tt)) (refl, (refl, tt)) (omega arith)

abbrev november : MonthStart
november = record { year = pos 2026; month = 10 }

november-parse_time : parse_time (text "2026-11") ≡ some november
unfolding parse_time is_month_text
november-parse_time = refl

abbrev february : MonthStart
february = record { year = pos 2027; month = 1 }

february-parse_time : parse_time (text "2027-02") ≡ some february
unfolding parse_time is_month_text
february-parse_time = refl

add_month_runs : add_month (text "2026-11") (pos 3) ≡ ok (text "2027-02")
unfolding add_month month_time parse_time is_month_text add_months month_at month_of format_year
    ◌+ℤ◌ ◌*ℤ◌ four_digits decimal
add_month_runs = refl

november_plus_three : month_index november +ℤ pos 3 ≡ pos 24325
unfolding ◌+ℤ◌ ◌*ℤ◌
november_plus_three = refl

november-index : month_index november ≡ pos 24322
unfolding ◌+ℤ◌ ◌*ℤ◌
november-index = refl

abbrev december : MonthStart
december = record { year = pos 9999; month = 11 }

validate_month_exact_example :
    validate_month (text "2026-13") ≡ elim (parse_time (text "2026-13")) [
      | none ↦ err (month_not_parsed (text "2026-13"))
      | some t ↦ ok tt
    ]
validate_month_exact_example = validate_month_exact (text "2026-13")

december-parse_time : parse_time (text "9999-12") ≡ some december
unfolding parse_time is_month_text
december-parse_time = refl

add_month_exact_example :
    (result : Text) × (add_month (text "9999-12") (pos 1) ≡ ok result)
    × (Option.map month_index (parse_time result) ≡ none)
unfolding ◌+ℤ◌ ◌*ℤ◌
add_month_exact_example =
    add_month_exact (text "9999-12") december (pos 1) december-parse_time (omega arith)

-- The life of an obligation whose first transfer fails and whose second one bounces.
abbrev pub due_now : Obligation
due_now = record {
  account = text "a";
  month = text "2026-11";
  amount_cents = pos 34;
  currency = text "EUR";
  due_date = pos 0;
  state = earned;
  provider_transfer_ref = [];
  history = [];
}

abbrev pub moves : List (ObligationState × ℤ × Text)
moves =
    (owed, pos 1, text "due")
    ∷ (initiated, pos 2, [])
    ∷ (settled, pos 3, [])
    ∷ (owed, pos 4, text "bounced")
    ∷ []

abbrev bounced : Obligation
bounced = record due_now {
  state = owed;
  history =
      record { from_state = earned; to_state = owed; at = pos 1; note = text "due" }
      ∷ record { from_state = owed; to_state = initiated; at = pos 2; note = [] }
      ∷ record { from_state = initiated; to_state = settled; at = pos 3; note = [] }
      ∷ record { from_state = settled; to_state = owed; at = pos 4; note = text "bounced" }
      ∷ [];
}

run-moves : run due_now moves ≡ ok bounced
unfolding run transition transitions is_legal
run-moves = refl

transition_exact_example :
    (Step earned owed
      × transition due_now owed (pos 1) []
        ≡ ok (record due_now {
          history = record { from_state = earned; to_state = owed; at = pos 1; note = [] } ∷ [];
          state = owed;
        }))
    ⊎ (¬ (Step earned owed) × transition due_now owed (pos 1) [] ≡ err illegal_transition)
transition_exact_example = transition_exact due_now owed (pos 1) []

run-IsAudited_example :
    IsAudited earned bounced
    × id_of bounced ≡ id_of due_now
    × bounced.amount_cents ≡ due_now.amount_cents
run-IsAudited_example = run-IsAudited earned due_now moves bounced start run-moves

run_settles_once_example :
    (pays_once false bounced.history ≡ true)
    × (moved is_settlement bounced.history ≡ moved is_bounce bounced.history + one_if false)
    × (moved is_initiation bounced.history
        ≡ moved is_settlement bounced.history + moved is_failure bounced.history + one_if false)
run_settles_once_example = run_settles_once due_now moves bounced refl refl refl run-moves

-- A program, a receipt and an award, and the round that they give.
abbrev pub program : Program
program = record {
  version = text "v1";
  currency = text "EUR";
  pool_bps = pos 1000;
  covered_receipts = [];
  credit_duration_rounds = pos 12;
  payment_timetable = [];
  payout_due_days = pos 30;
  calculation_version = pos 1;
  effective_from = text "2026-01";
}

abbrev pub receipt : Receipt
receipt = record {
  source = text "shop";
  month = text "2026-11";
  gross_cents = pos 1100;
  adjustments = record { kind = tax; amount_cents = pos 95; description = [] } ∷ [];
  currency = text "EUR";
  evidence = [];
}

abbrev pub award : Award
award = record {
  id = text "1";
  splits =
      record { account = text "y"; credits = pos 2 }
      ∷ record { account = text "x"; credits = pos 1 }
      ∷ [];
  activation = text "2026-06";
  expiration = text "2027-06";
  evidence = text "pr" ∷ [];
  description = [];
  policy_version = text "v1";
  status = AwardStatus.approved;
  proposed_by = [];
  proposed_at = pos 0;
  decided_by = [];
  decided_at = pos 0;
  decision_note = [];
}

award-IsSound : All IsSound (award ∷ [])
unfolding validate_award validate_splits contains text_eq validate_month parse_time is_month_text
    month_of format_year four_digits decimal before text_lt
award-IsSound = (λ approved. refl, tt)

granted_some : granted (award ∷ []) (text "2026-11") ≡ 3
unfolding active_in before text_lt text_eq
granted_some = refl

active_credits-IsTally_example :
    (found : Credits) × (active_credits (award ∷ []) (text "2026-11") ≡ ok found)
    × IsTally found
        (granted (award ∷ []) (text "2026-11"))
        (granted_to (award ∷ []) (text "2026-11"))
active_credits-IsTally_example =
    active_credits-IsTally (award ∷ []) (text "2026-11") award-IsSound (omega (arith, granted_some))

abbrev pub round : Round
round = record {
  month = text "2026-11";
  policy_version = text "v1";
  calculation_version = pos 1;
  currency = text "EUR";
  net_receipts_cents = pos 1005;
  carryforward_cents = pos 0;
  pool_cents = pos 100;
  total_credits = pos 3;
  entitlements = x_paid ∷ y_paid ∷ [];
  unallocated_cents = pos 0;
  closed_at = zero_time;
  closed_by = [];
}

-- The last day of January 2027, counted in days from the year 0.
abbrev pub owing : Text → ℕ → Obligation
owing account cents = record {
  account = account;
  month = text "2026-11";
  amount_cents = pos cents;
  currency = text "EUR";
  due_date = pos (740377 * day);
  state = earned;
  provider_transfer_ref = [];
  history = [];
}

due_date_runs : due_date program (text "2026-11") ≡ ok (pos (740377 * day))
unfolding due_date month_time parse_time is_month_text quarter_end month_at ◌+ℤ◌ ◌*ℤ◌ days_before
    days_at days_before_year days_before_month is_leap midnight
due_date_runs = refl

pub compute_round_runs :
    compute_round program (text "2026-11") (receipt ∷ []) (award ∷ []) (pos 0)
    ≡ ok (round, owing (text "x") 33 ∷ owing (text "y") 67 ∷ [])
unfolding compute_round validate_program validate_month parse_time is_month_text month_of
    format_year four_digits decimal before text_lt text_eq sum_receipts validate_receipt
    validate_adjustments net_cents net_from sub64 add64 wrap64 ◌+ℤ◌ ◌-ℤ◌ ◌*ℤ◌ active_credits
    active_credits_from add_award validate_award validate_splits contains active_in add_splits
    add_credits pool_share_cents quo rem allocate gather distribute entitle remainder_of
    by_remainder give credits_of stable_sort allocated_from due_date month_time quarter_end month_at
    days_before days_at days_before_year days_before_month is_leap midnight round_of obligations_of
    sum_credits
compute_round_runs = refl

compute_round-Balanced_example :
    Balanced
      (granted (award ∷ []) (text "2026-11"))
      round
      (owing (text "x") 33 ∷ owing (text "y") 67 ∷ [])
compute_round-Balanced_example =
    compute_round-Balanced program (text "2026-11") (receipt ∷ []) (award ∷ []) (pos 0) round
      (owing (text "x") 33 ∷ owing (text "y") 67 ∷ []) compute_round_runs
      (omega (arith, granted_some))

verify-compute_round_example : verify_round (record { program = program; round = round }) ≡ ok tt
verify-compute_round_example =
    verify-compute_round program (text "2026-11") (receipt ∷ []) (award ∷ []) (pos 0) round
      (owing (text "x") 33 ∷ owing (text "y") 67 ∷ []) compute_round_runs
      (omega (arith, granted_some))
