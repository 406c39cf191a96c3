-- ===== src/Contributor/Ledger/Gaps.antt =====
-- Months closed out of order, in contributor/ledger.go.
use blue.Prelude.{Text, ◌≡◌, refl, pos, true, false, [], ◌∷◌, ◌++◌, none, All, arith}
use blue.Document.{Collection, find, documents, select}
use blue.Contributor.Result.{ok, err, out_of_order}
use blue.Contributor.Month.{prev_month, before}
use blue.Contributor.Round.{Round}
use blue.Contributor.Store.{get, get_round, list_rounds, list_documents}
use blue.Contributor.Ledger.{none_earlier, carried, carryforward}
use blue.Contributor.Ledger.Reads.{sound}

none_earlier-later :
    (m : Text) (rounds : Collection Round)
    → All (λ e. before e.1.month m ≡ false) rounds
    → none_earlier m (select (λ r. true) (documents rounds)) ≡ ok (pos 0)
unfolding none_earlier select
none_earlier-later m [] all = refl
none_earlier-later m ((k, r) ∷ rounds) all = rw all.0 (none_earlier-later m rounds all.1)

-- Where the month before is not closed and no closed round is of an earlier month, nothing is carried
-- forward and nothing is refused, also where later months are closed already.
pub carryforward_backwards :
    (rounds : Collection Round) (m p : Text)
    → prev_month m ≡ ok p
    → find rounds p ≡ none
    → All (λ e. before e.1.month m ≡ false) rounds
    → carryforward sound rounds m ≡ ok (pos 0)
unfolding carryforward carried get_round get list_rounds list_documents
carryforward_backwards rounds m p prev open_month all =
    rw (prev, open_month) (none_earlier-later m rounds all)

none_earlier-gap :
    (m k : Text) (r : Round) (before_it after_it : Collection Round)
    → before r.month m ≡ true
    → none_earlier m (select (λ x. true) (documents (before_it ++ (k, r) ∷ after_it)))
      ≡ err (out_of_order m)
unfolding none_earlier select
none_earlier-gap m k r [] after_it h = rw h refl
none_earlier-gap m k r ((j, q) ∷ before_it) after_it h =
    ground (arith, none_earlier-gap m k r before_it after_it h)

-- Where the month before is not closed and some closed round is of an earlier month, the close is
-- refused: there would be a gap.
pub carryforward_gap :
    (m p k : Text) (r : Round) (before_it after_it : Collection Round)
    → prev_month m ≡ ok p
    → find (before_it ++ (k, r) ∷ after_it) p ≡ none
    → before r.month m ≡ true
    → carryforward sound (before_it ++ (k, r) ∷ after_it) m ≡ err (out_of_order m)
unfolding carryforward carried get_round get list_rounds list_documents
carryforward_gap m p k r before_it after_it prev open_month early =
    rw (prev, open_month) (none_earlier-gap m k r before_it after_it early)
