-- ===== src/Contributor/Ledger/Examples.antt =====
-- Runs of the ledger on small books, and its theorems at such books.
use blue.Prelude.{
  decimal, ◌*◌, ◌<◌, ◌^◌, ◌-ℤ◌, arith, ◌≡◌, refl, Text, text, text_eq, text_lt, none, some, All, ℤ,
  pos, ◌*ℤ◌, List, [], ◌∷◌, ◌+ℤ◌, Option, true, false, if◌then◌else◌,
}
use blue.Document.{find, select, documents}
use blue.Contributor.Result.{ok, err, service_failed, obligation_failed}
use blue.Contributor.Month.{
  validate_month, parse_time, is_month_text, month_of, month_at, format_year, four_digits, before,
  month_time, next_month, prev_month, add_month, add_months,
}
use blue.Contributor.Program.{Program}
use blue.Contributor.Clock.{
  day, midnight, days_before, days_at, days_before_year, days_before_month, is_leap,
}
use blue.Contributor.Round.{Round}
use blue.Contributor.Obligation.{Obligation, id_of, obligation_id}
use blue.Contributor.Store.{
  Books, Call, create_in, obligations, latest, create, get, list_documents, list_programs,
  program_effective, list_month_receipts, list_awards, create_obligation, create_round, get_round,
}
use blue.Contributor.Ledger.{
  carried, carryforward, assemble, earned_at, create_all, closed_by, store_round, store_all,
  close_open, close_round,
}
use blue.Contributor.Ledger.Reads.{sound}
use blue.Contributor.Ledger.Retry.{close_round_again, close_round-keeps}
use blue.Contributor.Ledger.Chain.{IsSequence, close_round-IsSequence}
use blue.Contributor.Ledger.Conserved.{IsConserved, close_round-IsConserved}
use blue.Contributor.Engine.Tally.{granted}
use blue.Contributor.Ledger.Gaps.{carryforward_backwards}
use blue.Contributor.Examples.{program, receipt, award, round, owing, compute_round_runs}

abbrev november : Text
november = text "2026-11"

-- The last round closed is that of October, with nothing left.
abbrev october : Round
october = record round { month = text "2026-10"; closed_at = pos 5; closed_by = text "ann" }

abbrev books : Books
books = record {
  programs = (text "v1", program) ∷ [];
  participants = [];
  awards = (text "1", award) ∷ [];
  receipts = (text "shop", receipt) ∷ [];
  rounds = (text "2026-10", october) ∷ [];
  obligations = [];
}

-- The first instant of December 2026.
abbrev closing_time : ℤ
closing_time = pos (740316 * day)

assembles :
    assemble sound books november ≡ ok (round, owing (text "x") 33 ∷ owing (text "y") 67 ∷ [])
unfolding assemble validate_month parse_time is_month_text month_of format_year four_digits decimal
    program_effective list_programs list_documents select latest before text_lt list_month_receipts
    text_eq list_awards carryforward carried get_round get find prev_month add_month add_months
    month_time month_at ◌+ℤ◌ ◌*ℤ◌
assembles = compute_round_runs

-- The service fails to create the obligation of y.
abbrev failing : Call → Option Text
failing (create_in obligations id) =
    if text_eq id (text "2026-11:y") then some (text "no space") else none
failing _ = none

abbrev x_earned : Obligation
x_earned = earned_at november closing_time (owing (text "x") 33)

abbrev half_books : Books
half_books = record books { obligations = (text "2026-11:x", x_earned) ∷ [] }

assembles_failing :
    assemble failing books november ≡ ok (round, owing (text "x") 33 ∷ owing (text "y") 67 ∷ [])
unfolding assemble validate_month parse_time is_month_text month_of format_year four_digits decimal
    program_effective list_programs list_documents select latest before text_lt list_month_receipts
    text_eq list_awards carryforward carried get_round get find prev_month add_month add_months
    month_time month_at ◌+ℤ◌ ◌*ℤ◌
assembles_failing = compute_round_runs

close_round_fails : close_round failing books november closing_time (text "ann") ≡ (
  err (obligation_failed november (text "2026-11:y") (service_failed (text "no space"))),
  half_books,
)
unfolding close_round close_open get_round get find text_eq next_month month_time parse_time
    is_month_text month_of format_year four_digits decimal add_month add_months month_at ◌+ℤ◌ ◌*ℤ◌
    midnight days_before days_at days_before_year days_before_month is_leap store_all create_all
    create_obligation create id_of obligation_id validate_month store_round create_round
close_round_fails = rw assembles_failing refl

abbrev november_closed : Round
november_closed = closed_by sound closing_time (text "ann") round

abbrev closed_books : Books
closed_books = record half_books {
  rounds = (november, november_closed) ∷ books.rounds;
  obligations =
      (text "2026-11:y", earned_at november closing_time (owing (text "y") 67))
      ∷ half_books.obligations;
}

close_round_succeeds :
    close_round sound books november closing_time (text "ann") ≡ (ok november_closed, closed_books)
unfolding close_round close_open get_round get find text_eq next_month month_time parse_time
    is_month_text month_of format_year four_digits decimal add_month add_months month_at ◌+ℤ◌ ◌*ℤ◌
    midnight days_before days_at days_before_year days_before_month is_leap store_all create_all
    create_obligation create id_of obligation_id validate_month store_round create_round
close_round_succeeds = rw assembles refl

close_round_again_example :
    close_round sound
      (close_round failing books november closing_time (text "ann")).1
      november
      closing_time
      (text "ann")
    ≡ close_round sound books november closing_time (text "ann")
close_round_again_example =
    close_round_again failing books november closing_time (text "ann")
      {x = obligation_failed november (text "2026-11:y") (service_failed (text "no space"))}
      (rw close_round_fails refl)

october-IsSequence : IsSequence books.rounds
unfolding validate_month parse_time is_month_text month_of format_year four_digits decimal text_eq
october-IsSequence = (refl, refl, refl, tt)

october_earlier : All (λ e. before e.0 november ≡ true) books.rounds
unfolding before text_lt
october_earlier = (refl, tt)

closes : (close_round sound books november closing_time (text "ann")).0 ≡ ok november_closed
closes = rw close_round_succeeds refl

close_round-IsSequence_example :
    IsSequence (close_round sound books november closing_time (text "ann")).1.rounds
close_round-IsSequence_example =
    close_round-IsSequence sound books november closing_time (text "ann") november_closed
      october-IsSequence october_earlier closes

credits_fit : granted (documents books.awards) november < 2 ^ 63
unfolding before text_lt
credits_fit = ground arith

october-IsConserved : IsConserved books.rounds
unfolding ◌+ℤ◌ ◌-ℤ◌
october-IsConserved = refl

close_round-IsConserved_example :
    IsConserved (close_round sound books november closing_time (text "ann")).1.rounds
close_round-IsConserved_example =
    close_round-IsConserved sound books november closing_time (text "ann") november_closed
      october-IsSequence october_earlier credits_fit october-IsConserved closes

-- The obligation of x that the failed attempt stored is kept.
x_stored : find half_books.obligations (text "2026-11:x") ≡ some x_earned
unfolding find text_eq
x_stored = refl

half_assembles :
    assemble sound half_books november ≡ ok (round, owing (text "x") 33 ∷ owing (text "y") 67 ∷ [])
unfolding assemble validate_month parse_time is_month_text month_of format_year four_digits decimal
    program_effective list_programs list_documents select latest before text_lt list_month_receipts
    text_eq list_awards carryforward carried get_round get find prev_month add_month add_months
    month_time month_at ◌+ℤ◌ ◌*ℤ◌
half_assembles = compute_round_runs

half_closes :
    (close_round sound half_books november closing_time (text "ann")).0 ≡ ok november_closed
unfolding close_round close_open get_round get find text_eq next_month month_time parse_time
    is_month_text month_of format_year four_digits decimal add_month add_months month_at ◌+ℤ◌ ◌*ℤ◌
    midnight days_before days_at days_before_year days_before_month is_leap store_all create_all
    create_obligation create id_of obligation_id validate_month store_round create_round
half_closes = rw half_assembles refl

close_round-keeps_example :
    find
      (close_round sound half_books november closing_time (text "ann")).1.obligations
      (text "2026-11:x")
    ≡ some x_earned
close_round-keeps_example =
    close_round-keeps sound half_books november closing_time (text "ann") november_closed
      (text "2026-11:x") x_earned half_closes x_stored

-- September, where only October is closed.
before_september : prev_month (text "2026-09") ≡ ok (text "2026-08")
unfolding prev_month add_month add_months month_time parse_time is_month_text month_at month_of
    format_year four_digits decimal ◌+ℤ◌ ◌*ℤ◌
before_september = refl

august_open : find books.rounds (text "2026-08") ≡ none
unfolding find text_eq
august_open = refl

october_later : All (λ e. before e.1.month (text "2026-09") ≡ false) books.rounds
unfolding before text_lt
october_later = (refl, tt)

september_runs : carryforward sound books.rounds (text "2026-09") ≡ ok (pos 0)
september_runs =
    carryforward_backwards books.rounds (text "2026-09") (text "2026-08") before_september
      august_open october_later

-- Three programs, of which the second is in force in November.
abbrev from_month : Text → Text → Program
from_month version m = record program { version = version; effective_from = m }

abbrev programs' : List Program
programs' =
    program ∷ from_month (text "v3") (text "2027-01") ∷ from_month (text "v2") (text "2026-07") ∷ []

latest_runs : latest november none programs' ≡ some (from_month (text "v2") (text "2026-07"))
unfolding latest before text_lt
latest_runs = refl
