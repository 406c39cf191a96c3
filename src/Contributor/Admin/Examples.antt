-- ===== src/Contributor/Admin/Examples.antt =====
-- Runs of the administration on small books, and its theorems at such books.
use blue.Prelude.{
  decimal, ◌+◌, ◌≡◌, refl, Text, text, text_eq, text_lt, none, some, pos, [], ◌∷◌, ◌+ℤ◌, ◌*ℤ◌, true,
  false, if◌then◌else◌,
}
use blue.Document.{find, put, select}
use blue.Contributor.Result.{ok, err, award_already_decided}
use blue.Contributor.Month.{
  validate_month, parse_time, is_month_text, month_of, month_at, format_year, four_digits, before,
  month_time, add_month, add_months,
}
use blue.Contributor.Program.{Program, expiration_month}
use blue.Contributor.Participant.{Participant, eligible}
use blue.Contributor.Receipt.{Receipt, validate_receipt, validate_adjustments}
use blue.Contributor.Award.{Award, proposed, validate_award, validate_splits, contains}
use blue.Contributor.Clock.{zero_time}
use blue.Contributor.Store.{
  Books, latest, create, get, set, list_documents, list_programs, list_participants,
  program_effective, create_award, get_award, set_award, create_receipt,
}
use blue.Contributor.Ledger.Reads.{sound}
use blue.Contributor.Admin.{
  ProposeAwardRequest, account_by_handle, resolve_from, resolve_splits, propose_award, decided,
  decide_found, decide_award, import_from, import_receipts,
}
use blue.Contributor.Admin.Imports.{import_receipts_again}
use blue.Contributor.Admin.Decisions.{IsKeyed, decide_award_final}
use blue.Contributor.Admin.Proposals.{propose_award-decide_award}
use blue.Contributor.Examples.{program, receipt, award}

abbrev ann : Participant
ann = record {
  account = text "a1";
  github_handle = text "Ann";
  agreement_version = text "1";
  agreement_accepted_at = pos 0;
  agreement_evidence = [];
  status = eligible;
  payout_provider_ref = [];
  payout_ready = false;
}

abbrev staffed : Books
staffed = record {
  programs = (text "v1", program) ∷ [];
  participants = (text "a1", ann) ∷ [];
  awards = (text "1", award) ∷ [];
  receipts = (text "shop", receipt) ∷ [];
  rounds = [];
  obligations = [];
}

-- The handle is written in another case.
abbrev request : ProposeAwardRequest
request = record {
  splits = record { github_handle = text "aNN"; credits = pos 3 } ∷ [];
  activation = text "2026-11";
  evidence = text "pr" ∷ [];
  description = [];
  proposed_by = text "bob";
}

abbrev proposal : Award
proposal = record {
  id = text "7";
  splits = record { account = text "a1"; credits = pos 3 } ∷ [];
  activation = text "2026-11";
  expiration = text "2027-11";
  evidence = text "pr" ∷ [];
  description = [];
  policy_version = text "v1";
  status = proposed;
  proposed_by = text "bob";
  proposed_at = pos 10;
  decided_by = [];
  decided_at = zero_time;
  decision_note = [];
}

abbrev proposed_books : Books
proposed_books = record staffed { awards = (text "7", proposal) ∷ staffed.awards }

propose_award_runs :
    propose_award sound (text "7") (pos 10) staffed request ≡ ok (proposed_books, text "7")
unfolding propose_award validate_month parse_time is_month_text month_of format_year four_digits
    decimal text_eq text_lt before program_effective list_programs list_documents select latest
    resolve_splits list_participants resolve_from account_by_handle expiration_month add_month
    add_months month_time month_at ◌+ℤ◌ ◌*ℤ◌ create_award create find validate_award validate_splits
    contains
propose_award_runs = refl

propose_award-decide_award_example :
    (a : Award) × (p : Program) × (text "7" ≡ text "7")
    × (find staffed.awards (text "7") ≡ none)
    × (proposed_books ≡ record staffed { awards = (text "7", a) ∷ staffed.awards })
    × (a.status ≡ proposed)
    × (program_effective sound staffed.programs (text "2026-11") ≡ ok p)
    × (expiration_month p (text "2026-11") ≡ ok a.expiration)
    × (a.policy_version ≡ p.version)
    × (resolve_splits sound staffed request.splits ≡ ok a.splits)
    × (decide_award sound (pos 20) proposed_books (text "7") true (text "eve") []
        ≡ ok (
          record staffed {
            awards = (text "7", decided (pos 20) true (text "eve") [] a) ∷ staffed.awards;
          },
          decided (pos 20) true (text "eve") [] a,
        ))
propose_award-decide_award_example =
    propose_award-decide_award sound (text "7") (pos 10) (pos 20) staffed request true (text "eve")
      [] refl propose_award_runs

abbrev accepted : Award
accepted = decided (pos 20) true (text "eve") [] proposal

abbrev accepted_books : Books
accepted_books = record staffed { awards = (text "7", accepted) ∷ staffed.awards }

decide_award_runs :
    decide_award sound (pos 20) proposed_books (text "7") true (text "eve") []
    ≡ ok (accepted_books, accepted)
unfolding decide_award get_award get find text_eq decide_found set_award validate_award
    validate_splits contains validate_month parse_time is_month_text month_of format_year
    four_digits decimal before text_lt set put
decide_award_runs = refl

decide_award_final_example :
    ((a : Award) × (find proposed_books.awards (text "7") ≡ some a)
      × (a.status ≡ proposed)
      × (accepted ≡ decided (pos 20) true (text "eve") [] a))
    × ((other : Text)
        → find accepted_books.awards other
          ≡ (if text_eq (text "7") other then some accepted else find proposed_books.awards other))
    × (decide_award sound (pos 30) accepted_books (text "7") false (text "bob") []
        ≡ err award_already_decided)
    × IsKeyed accepted_books.awards
decide_award_final_example =
    decide_award_final sound (pos 20) (pos 30) proposed_books (text "7") true false (text "eve") []
      (text "bob") [] (refl, (refl, tt)) decide_award_runs

-- The receipt that is there already, twice, and a new one.
abbrev fair : Receipt
fair = record receipt { source = text "fair" }

imports : (import_receipts sound staffed (receipt ∷ fair ∷ fair ∷ [])).0 ≡ ok tt
unfolding import_receipts import_from create_receipt validate_receipt validate_adjustments
    validate_month parse_time is_month_text month_of format_year four_digits decimal text_eq create
    find
imports = refl

import_receipts_again_example :
    ((import_receipts sound staffed (receipt ∷ fair ∷ fair ∷ [])).1.0
        + (import_receipts sound staffed (receipt ∷ fair ∷ fair ∷ [])).1.1
      ≡ 3)
    × (import_receipts sound
          (import_receipts sound staffed (receipt ∷ fair ∷ fair ∷ [])).2
          (receipt ∷ fair ∷ fair ∷ [])
        ≡ (ok tt, (0, 3), (import_receipts sound staffed (receipt ∷ fair ∷ fair ∷ [])).2))
import_receipts_again_example =
    import_receipts_again sound staffed (receipt ∷ fair ∷ fair ∷ []) imports
