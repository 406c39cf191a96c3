-- ===== src/Contributor/Ledger.antt =====
-- contributor/ledger.go. A method is given the books and returns them, with its result; the calls of
-- the document services that fail are a parameter, as in the stores.
pub mod Reads
pub mod Obligations
pub mod Retry
pub mod Commit
pub mod Chain
pub mod Conserved
pub mod Gaps
mod Examples
use blue.Prelude.{
  Text, text, ℤ, pos, ltb_ℤ, Bool, true, false, List, [], ◌∷◌, ◌++◌, map, Option, if◌then◌else◌,
}
use blue.Document.{Collection}
use blue.Contributor.Result.{
  Error, Result, ok, err, panic, ◌>>=◌, ◌>>◌, wrap_error, not_found, already_exists, program_for,
  round_closed, not_ended, out_of_order, obligation_failed,
}
use blue.Contributor.Month.{MonthStart, validate_month, month_time, next_month, prev_month, before}
use blue.Contributor.Clock.{days_before, midnight}
use blue.Contributor.Award.{Award, approved}
use blue.Contributor.Receipt.{Receipt}
use blue.Contributor.Round.{Round}
use blue.Contributor.Obligation.{Obligation, estimated, earned, id_of}
use blue.Contributor.Compute.{compute_round}
use blue.Contributor.Store.{
  Books, Call, program_effective, list_month_receipts, list_awards, create_round, get_round,
  list_rounds, create_obligation,
}

abbrev pub is_not_found : Error → Bool
is_not_found not_found = true
is_not_found _ = false

abbrev pub is_already_exists : Error → Bool
is_already_exists already_exists = true
is_already_exists _ = false

-- The loop of carryforward over the closed rounds.
unfoldable pub none_earlier : Text → List Round → Result ℤ
none_earlier m [] = ok (pos 0)
none_earlier m (r ∷ rounds) =
    if before r.month m then err (out_of_order m) else none_earlier m rounds

-- The obligation that CloseRound stores.
abbrev pub earned_at : Text → ℤ → Obligation → Obligation
earned_at m at o = record o {
  history =
      record {
        from_state = estimated;
        to_state = earned;
        at = at;
        note = text "round " ++ (m ++ text " closed");
      }
      ∷ [];
}

abbrev as_estimated : Obligation → Obligation
as_estimated o = record o { state = estimated }

module _ (faults : Call → Option Text) where
  -- Ledger.carryforward, once the month before is known
  unfoldable pub carried : Collection Round → Text → Result Round → Result ℤ
  carried rounds m (ok prev) = ok prev.unallocated_cents
  carried rounds m (err e) =
      if is_not_found e then (list_rounds faults rounds >>= none_earlier m) else err e
  carried rounds m panic = panic

  -- Ledger.carryforward
  unfoldable pub carryforward : Collection Round → Text → Result ℤ
  carryforward rounds m = prev_month m >>= λ prev. carried rounds m (get_round faults rounds prev)

  -- Ledger.assemble
  unfoldable pub assemble : Books → Text → Result (Round × List Obligation)
  assemble b m = do
    validate_month m
    program ← wrap_error (program_for m) (program_effective faults b.programs m)
    receipts ← list_month_receipts faults b.receipts m
    awards ← list_awards faults b.awards approved
    amount ← carryforward b.rounds m
    compute_round program m receipts awards amount

  -- Ledger.Estimate
  unfoldable pub estimate : Books → Text → Result (Round × List Obligation)
  estimate b m = assemble b m >>= λ (round, obligations). ok (round, map as_estimated obligations)

  -- The loop of CloseRound over the obligations: one that exists is kept.
  unfoldable pub create_all :
      Collection Obligation → Text → ℤ → List Obligation → Result (Unit {0}) × Collection Obligation
  create_all db m at [] = (ok tt, db)
  create_all db m at (o ∷ obligations) = elim (create_obligation faults db (earned_at m at o)) [
    | ok next ↦ create_all next m at obligations
    | err e ↦ elim (is_already_exists e) [
      | true ↦ create_all db m at obligations
      | false ↦ (err (obligation_failed m (id_of o) e), db)
    ]
    | panic ↦ (panic, db)
  ]

  abbrev pub closed_by : ℤ → Text → Round → Round
  closed_by at by round = record round { closed_at = at; closed_by = by }

  -- The end of CloseRound: the round, which is the commit point.
  unfoldable pub store_round :
      Books → Round → Result (Unit {0}) × Collection Obligation → Result Round × Books
  store_round b round (ok done, db) = elim (create_round faults b.rounds round) [
    | ok rounds ↦ (ok round, record b { obligations = db; rounds = rounds })
    | err e ↦ (err e, record b { obligations = db })
    | panic ↦ (panic, record b { obligations = db })
  ]
  store_round b round (err e, db) = (err e, record b { obligations = db })
  store_round b round (panic, db) = (panic, record b { obligations = db })

  unfoldable pub store_all :
      Books → Text → ℤ → Text → Result (Round × List Obligation) → Result Round × Books
  store_all b m at by (ok (round, obligations)) =
      store_round b (closed_by at by round) (create_all b.obligations m at obligations)
  store_all b m at by (err e) = (err e, b)
  store_all b m at by panic = (panic, b)

  -- CloseRound, where the month is not closed yet and the first instant after it is known.
  unfoldable pub close_open : Books → Text → ℤ → Text → Result MonthStart → Result Round × Books
  close_open b m at by (ok end) =
      if ltb_ℤ at (midnight (days_before end))
      then (err (not_ended m), b)
      else store_all b m at by (assemble b m)
  close_open b m at by (err e) = (err e, b)
  close_open b m at by panic = (panic, b)

  -- Ledger.CloseRound
  unfoldable pub close_round : Books → Text → ℤ → Text → Result Round × Books
  close_round b m at by = elim (get_round faults b.rounds m) [
    | ok round ↦ (err (round_closed m), b)
    | err e ↦
        if is_not_found e then close_open b m at by (next_month m >>= month_time) else (err e, b)
    | panic ↦ (panic, b)
  ]
