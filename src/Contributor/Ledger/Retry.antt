-- ===== src/Contributor/Ledger/Retry.antt =====
-- A CloseRound of contributor/ledger.go that failed, and the one after it.
use blue.Prelude.{
  Text, ◌≡◌, refl, sym, ap, ◌∙◌, ℤ, true, false, List, Option, some, Bool-cases, inl, inr, arith,
  ltb_ℤ,
}
use blue.Document.{Collection, find}
use blue.Contributor.Result.{not_found, Error, Result, ok, err, panic, ◌>>=◌}
use blue.Contributor.Month.{next_month, month_time, MonthStart}
use blue.Contributor.Clock.{midnight, days_before}
use blue.Contributor.Round.{Round}
use blue.Contributor.Obligation.{Obligation}
use blue.Contributor.Store.{Books, Call, get_round}
use blue.Contributor.Ledger.Commit.{close_round-Closed}
use blue.Contributor.Ledger.Reads.{
  sound, reading, read, missing, failed, crashed, get_round-missing, assemble-sound,
}
use blue.Contributor.Ledger.{
  is_not_found, create_all, store_round, store_all, close_open, close_round, assemble, closed_by,
}
use blue.Contributor.Ledger.Obligations.{create_all-keeps, create_all-again}

-- CloseRound, once everything that it reads is known.
module _ (faults : Call → Option Text) (b : Books) (m : Text) (at : ℤ) (by : Text) where
  closing :
      (e : Error) (end : MonthStart) (round : Round) (os : List Obligation)
      → get_round faults b.rounds m ≡ err e
      → is_not_found e ≡ true
      → (next_month m >>= month_time) ≡ ok end
      → ltb_ℤ at (midnight (days_before end)) ≡ false
      → assemble faults b m ≡ ok (round, os)
      → close_round faults b m at by
        ≡ store_round faults b
            (closed_by faults at by round)
            (create_all faults b.obligations m at os)
  unfolding close_round close_open store_all
  closing e end round os free gone ends late assembled =
      rw (free, gone, ends, late, assembled, close_round) refl

  -- Whatever is stored of the obligations, the round is stored alike.
  store_round-obligations :
      (old : Collection Obligation) (round : Round)
      (made : Result (Unit {0}) × Collection Obligation)
      → store_round faults (record b { obligations = old }) round made
        ≡ store_round faults b round made
  unfolding store_round
  store_round-obligations old round (ok done, db) = refl
  store_round-obligations old round (err e, db) = refl
  store_round-obligations old round (panic, db) = refl

  -- What a CloseRound that failed leaves.
  data Leaves (x : Books) : Type 0 where
    as_before : x ≡ b → Leaves x
    obligations_of :
        (e : Error) (end : MonthStart) (round : Round) (os : List Obligation)
        → get_round faults b.rounds m ≡ err e
        → is_not_found e ≡ true
        → (next_month m >>= month_time) ≡ ok end
        → ltb_ℤ at (midnight (days_before end)) ≡ false
        → assemble faults b m ≡ ok (round, os)
        → x ≡ record b { obligations = (create_all faults b.obligations m at os).1 }
        → Leaves x

  store_round-fails :
      (round : Round) (made : Result (Unit {0}) × Collection Obligation) {e : Error}
      → (store_round faults b round made).0 ≡ err e
      → (store_round faults b round made).1 ≡ record b { obligations = made.1 }
  unfolding store_round
  store_round-fails round (ok done, db) h = ground arith
  store_round-fails round (err e, db) h = refl
  store_round-fails round (panic, db) h = refl

  stored :
      (e : Error) (end : MonthStart) (r : Result (Round × List Obligation)) {x : Error}
      → get_round faults b.rounds m ≡ err e
      → is_not_found e ≡ true
      → (next_month m >>= month_time) ≡ ok end
      → ltb_ℤ at (midnight (days_before end)) ≡ false
      → assemble faults b m ≡ r
      → (store_all faults b m at by r).0 ≡ err x
      → Leaves (store_all faults b m at by r).1
  unfolding store_all
  stored e end (ok (round, os)) free gone ends late assembled h =
      obligations_of e end round os free gone ends late assembled (
        store_round-fails (closed_by faults at by round) (create_all faults b.obligations m at os)
          h)
  stored e end (err x') free gone ends late assembled h = as_before refl
  stored e end panic free gone ends late assembled h = as_before refl

  opened :
      (e : Error) (end : Result MonthStart) {x : Error}
      → get_round faults b.rounds m ≡ err e
      → is_not_found e ≡ true
      → (next_month m >>= month_time) ≡ end
      → (close_open faults b m at by end).0 ≡ err x
      → Leaves (close_open faults b m at by end).1
  unfolding close_open
  opened e (err x') free gone ends h = as_before refl
  opened e panic free gone ends h = as_before refl
  opened e (ok end) free gone ends h = elim (Bool-cases (ltb_ℤ at (midnight (days_before end)))) [
    | inl early ↦ as_before (rw early refl)
    | inr late ↦
        rw late (stored e end (assemble faults b m) free gone ends late refl (rw late at h))
  ]

  close_round-Leaves :
      {x : Error}
      → (close_round faults b m at by).0 ≡ err x
      → Leaves (close_round faults b m at by).1
  unfolding close_round
  close_round-Leaves h = elim (reading (get_round faults b.rounds m)) [
    | read r e ↦ as_before (rw (e, close_round) refl)
    | missing x e gone ↦
        rw (e, gone, close_round)
          (opened x (next_month m >>= month_time) e gone refl (rw (e, gone, close_round) at h))
    | failed x e other ↦ as_before (rw (e, other, close_round) refl)
    | crashed e ↦ as_before (rw (e, close_round) refl)
  ]

-- A CloseRound that returned an error, whatever calls failed in it, can be repeated: where no call
-- fails then, the same CloseRound does what it would have done in the first place.
pub close_round_again :
    (faults : Call → Option Text) (b : Books) (m : Text) (at : ℤ) (by : Text) {x : Error}
    → (close_round faults b m at by).0 ≡ err x
    → close_round sound (close_round faults b m at by).1 m at by ≡ close_round sound b m at by
unfolding assemble
close_round_again faults b m at by h = elim (close_round-Leaves faults b m at by h) [
  | as_before same ↦ ap (λ c. close_round sound c m at by) same
  | obligations_of e end round os free gone ends late assembled same ↦
      let db : Collection Obligation = (create_all faults b.obligations m at os).1 in
      let b' : Books = record b { obligations = db } in
      let free' = get_round-missing faults b.rounds m free gone in
      let assembled' = assemble-sound faults b m assembled in
      ap (λ c. close_round sound c m at by) same
      ∙ closing sound b' m at by not_found end round os free' refl ends late assembled'
      ∙ store_round-obligations sound b m at by db (closed_by faults at by round)
          (create_all sound db m at os)
      ∙ ap (store_round sound b (closed_by faults at by round))
          (create_all-again faults m at b.obligations os)
      ∙ sym (closing sound b m at by not_found end round os free' refl ends late assembled')
]

-- A CloseRound that succeeded has kept every obligation that was stored before it as it was, also one
-- that it computed anew with another amount or at another time.
pub close_round-keeps :
    (faults : Call → Option Text) (b : Books) (m : Text) (at : ℤ) (by : Text) (r : Round)
    (id : Text) (d : Obligation)
    → (close_round faults b m at by).0 ≡ ok r
    → find b.obligations id ≡ some d
    → find (close_round faults b m at by).1.obligations id ≡ some d
close_round-keeps faults b m at by r id d h held =
    let c = close_round-Closed faults b m at by h in
    ap (λ (x : Books). find x.obligations id) c.books_eq
    ∙ ap (λ (x : Result (Unit {0}) × Collection Obligation). find x.1 id) (sym c.all_stored)
    ∙ create_all-keeps faults m at b.obligations c.computed_obligations id held
