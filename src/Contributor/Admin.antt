-- ===== src/Contributor/Admin.antt =====
-- contributor/admin.go
pub mod Decisions
pub mod Proposals
pub mod Imports
mod Examples
use blue.Prelude.{
  ℕ, suc, ◌+◌, leb, Text, text_eq, to_lower, Bool, true, false, List, [], ◌∷◌, map, ℤ, Option, none,
  some, if◌then◌else◌, ◌&&◌,
}
use blue.Document.{Collection}
use blue.Contributor.Result.{
  Error, Result, ok, err, panic, ◌>>=◌, ◌>>◌, refuse, not_found, program_for,
  program_not_configured, participant_not_found, award_not_found, award_already_decided,
  receipt_failed,
}
use blue.Contributor.Month.{validate_month}
use blue.Contributor.Program.{Program, validate_program, expiration_month}
use blue.Contributor.Participant.{Participant}
use blue.Contributor.Award.{Award, Split, AwardStatus, proposed, approved, rejected}
use blue.Contributor.Receipt.{Receipt}
use blue.Contributor.Clock.{zero_time}
use blue.Contributor.Compute.{engine_version}
use blue.Contributor.Store.{
  Books, Call, put_program, program_effective, list_participants, create_award, get_award,
  set_award, create_receipt,
}
use blue.Contributor.Ledger.{is_not_found, is_already_exists}

pub record HandleSplit : Type 0 where
  pub github_handle : Text
  pub credits : ℤ

pub record ProposeAwardRequest : Type 0 where
  pub splits : List HandleSplit
  pub activation : Text
  pub evidence : List Text
  pub description : Text
  pub proposed_by : Text

-- The map accountByHandle; a handle is ASCII: a later participant replaces an earlier one with the same handle.
unfoldable pub account_by_handle : Option Text → List Participant → Text → Option Text
account_by_handle known [] handle = known
account_by_handle known (p ∷ ps) handle =
    account_by_handle
      (if text_eq (to_lower p.github_handle) (to_lower handle) then some p.account else known) ps
      handle

-- The loop of resolveSplits over the request.
unfoldable pub resolve_from : List Participant → List HandleSplit → Result (List Split)
resolve_from ps [] = ok []
resolve_from ps (s ∷ splits) = elim (account_by_handle none ps s.github_handle) [
  | none ↦ err (participant_not_found s.github_handle)
  | some account ↦ resolve_from ps splits >>= λ rest.
      ok (record { account = account; credits = s.credits } ∷ rest)
]

abbrev pub with_no_program : Text → Error → Error
with_no_program m e = if is_not_found e then program_not_configured m else program_for m e

abbrev pub is_proposed : AwardStatus → Bool
is_proposed proposed = true
is_proposed _ = false

abbrev pub decided : ℤ → Bool → Text → Text → Award → Award
decided now approve by note a = record a {
  status = (if approve then approved else rejected);
  decided_by = by;
  decided_at = now;
  decision_note = note;
}

module _ (faults : Call → Option Text) where
  -- Ledger.SetProgram
  unfoldable pub set_program : Books → Program → Result Books
  set_program b p =
      let pinned = record p { calculation_version = engine_version } in
      do
        validate_program pinned
        programs ← put_program faults b.programs pinned
        ok (record b { programs = programs })

  -- Ledger.resolveSplits
  unfoldable pub resolve_splits : Books → List HandleSplit → Result (List Split)
  resolve_splits b splits = list_participants faults b.participants >>= λ ps. resolve_from ps splits

  abbrev pub effective_program : Books → Text → Result Program
  effective_program b m = elim (program_effective faults b.programs m) [
    | ok p ↦ ok p
    | err e ↦ err (with_no_program m e)
    | panic ↦ panic
  ]

  -- Ledger.ProposeAward, with the new ID and the present time.
  unfoldable pub propose_award : Text → ℤ → Books → ProposeAwardRequest → Result (Books × Text)
  propose_award fresh now b req = do
    validate_month req.activation
    program ← effective_program b req.activation
    splits ← resolve_splits b req.splits
    expiration ← expiration_month program req.activation
    made ← create_award faults fresh b.awards (record {
      id = [];
      splits = splits;
      activation = req.activation;
      expiration = expiration;
      evidence = req.evidence;
      description = req.description;
      policy_version = program.version;
      status = proposed;
      proposed_by = req.proposed_by;
      proposed_at = now;
      decided_by = [];
      decided_at = zero_time;
      decision_note = [];
    })
    ok (record b { awards = made.0 }, made.1)

  -- DecideAward, once the award is read.
  unfoldable pub decide_found : ℤ → Books → Bool → Text → Text → Award → Result (Books × Award)
  decide_found now b approve by note a = do
    refuse (if is_proposed a.status then false else true) award_already_decided
    awards ← set_award faults b.awards (decided now approve by note a)
    ok (record b { awards = awards }, decided now approve by note a)

  -- Ledger.DecideAward, at the present time.
  unfoldable pub decide_award : ℤ → Books → Text → Bool → Text → Text → Result (Books × Award)
  decide_award now b id approve by note = elim (get_award faults b.awards id) [
    | ok a ↦ decide_found now b approve by note a
    | err e ↦ err (if is_not_found e then award_not_found id else e)
    | panic ↦ panic
  ]

  -- The loop of ImportReceipts: the receipts that were imported and the duplicates, so far.
  unfoldable pub import_from :
      ℕ → ℕ → Collection Receipt → List Receipt → Result (Unit {0}) × (ℕ × ℕ) × Collection Receipt
  import_from imported duplicates db [] = (ok tt, (imported, duplicates), db)
  import_from imported duplicates db (r ∷ receipts) = elim (create_receipt faults db r) [
    | ok next ↦ import_from (imported + 1) duplicates next receipts
    | err e ↦ elim (is_already_exists e) [
      | true ↦ import_from imported (duplicates + 1) db receipts
      | false ↦ (err (receipt_failed r.source e), (imported, duplicates), db)
    ]
    | panic ↦ (panic, (imported, duplicates), db)
  ]

  -- Ledger.ImportReceipts
  unfoldable pub import_receipts : Books → List Receipt → Result (Unit {0}) × (ℕ × ℕ) × Books
  import_receipts b receipts =
      let (result, counts, db) = import_from 0 0 b.receipts receipts in
      (result, counts, record b { receipts = db })
