-- ===== src/Contributor/Ledger/Commit.antt =====
-- A CloseRound of contributor/ledger.go that succeeded.
use blue.Prelude.{
  Text, ◌≡◌, refl, sym, ap, ℤ, true, false, List, ◌∷◌, Option, none, Bool-cases, inl, inr, ◌⊎◌,
  arith, ltb_ℤ,
}
use blue.Document.{Collection, find}
use blue.Contributor.Result.{Error, Result, ok, err, panic, ◌>>=◌}
use blue.Contributor.Month.{MonthStart, next_month, month_time}
use blue.Contributor.Clock.{days_before, midnight}
use blue.Contributor.Round.{Round}
use blue.Contributor.Obligation.{Obligation}
use blue.Contributor.Store.{Books, Call, create, create_round, get_round, get}
use blue.Contributor.Ledger.{
  assemble, is_not_found, close_round, close_open, store_all, store_round, create_all, closed_by,
}
use blue.Contributor.Ledger.Reads.{reading, read, missing, failed, crashed}

-- A result is a value, or its chain gives none.
ok-cases :
    {A : Type 0} (r : Result A)
    → ((a : A) × (r ≡ ok a)) ⊎ (((e : Error) × (r ≡ err e)) ⊎ (r ≡ panic))
ok-cases (ok a) = inl (a, refl)
ok-cases (err e) = inr (inl (e, refl))
ok-cases panic = inr (inr refl)

module _ (faults : Call → Option Text) (b : Books) (m : Text) (at : ℤ) (by : Text) where
  -- What a CloseRound that returned a round has computed and stored.
  pub record Closed (r : Round) (x : Books) : Type 0 where
    pub round : Round
    pub computed_obligations : List Obligation
    pub stored : Collection Obligation
    pub end : MonthStart
    pub was_open : find b.rounds m ≡ none
    pub ends : (next_month m >>= month_time) ≡ ok end
    pub ended : ltb_ℤ at (midnight (days_before end)) ≡ false
    pub assembled : assemble faults b m ≡ ok (round, computed_obligations)
    pub all_stored : create_all faults b.obligations m at computed_obligations ≡ (ok tt, stored)
    pub round_eq : r ≡ closed_by faults at by round
    pub month_free : find b.rounds r.month ≡ none
    pub books_eq : x ≡ record b { obligations = stored; rounds = (r.month, r) ∷ b.rounds }

  create_round-ok :
      (db : Collection Round) (r : Round) {next : Collection Round}
      → create_round faults db r ≡ ok next
      → (find db r.month ≡ none) × (next ≡ (r.month, r) ∷ db)
  unfolding create_round create
  create_round-ok db r h = ground arith

  the_round : {y z : Round} → ◌≡◌ {A = Result Round} (ok y) (ok z) → y ≡ z
  the_round h = cc h

  record Written (r : Round) (made : Result (Unit {0}) × Collection Obligation) (out : Round)
      (x : Books) : Type 0 where
    made_ok : made.0 ≡ ok tt
    same : out ≡ r
    free : find b.rounds r.month ≡ none
    books : x ≡ record b { obligations = made.1; rounds = (r.month, r) ∷ b.rounds }

  store_round-Written :
      (r : Round) (made : Result (Unit {0}) × Collection Obligation) {out : Round}
      → (store_round faults b r made).0 ≡ ok out
      → Written r made out (store_round faults b r made).1
  unfolding store_round
  store_round-Written r (ok done, db) h = elim (ok-cases (create_round faults b.rounds r)) [
    | inl (rounds, e) ↦
        let (free, next) = create_round-ok b.rounds r e in
        record {
          made_ok = refl;
          same = the_round (sym (rw (e, store_round) at h));
          free = free;
          books = rw (e, store_round) (ap (λ rs. record b { obligations = db; rounds = rs }) next);
        }
    | inr (inl (x, e)) ↦ absurd (cc (rw (e, store_round) at h))
    | inr (inr e) ↦ absurd (cc (rw (e, store_round) at h))
  ]
  store_round-Written r (err e, db) h = absurd (cc h)
  store_round-Written r (panic, db) h = absurd (cc h)

  get_round-missing :
      (e : Error)
      → get_round faults b.rounds m ≡ err e
      → is_not_found e ≡ true
      → find b.rounds m ≡ none
  unfolding get_round get
  get_round-missing e h gone = ground arith

  stored-Closed :
      (end : MonthStart) (r : Result (Round × List Obligation)) {out : Round}
      → find b.rounds m ≡ none
      → (next_month m >>= month_time) ≡ ok end
      → ltb_ℤ at (midnight (days_before end)) ≡ false
      → assemble faults b m ≡ r
      → (store_all faults b m at by r).0 ≡ ok out
      → Closed out (store_all faults b m at by r).1
  unfolding store_all
  stored-Closed end (ok (round, os)) free ends late assembled h =
      let w =
        store_round-Written (closed_by faults at by round) (create_all faults b.obligations m at os)
          h in
      record {
        round = round;
        computed_obligations = os;
        stored = (create_all faults b.obligations m at os).1;
        end = end;
        was_open = free;
        ends = ends;
        ended = late;
        assembled = assembled;
        all_stored =
            ap (λ (x : Result (Unit {0})). (x, (create_all faults b.obligations m at os).1))
              w.made_ok;
        round_eq = w.same;
        month_free = rw w.same w.free;
        books_eq = rw w.same w.books;
      }
  stored-Closed end (err e) free ends late assembled h = absurd (cc h)
  stored-Closed end panic free ends late assembled h = absurd (cc h)

  opened-Closed :
      (end : Result MonthStart) {out : Round}
      → find b.rounds m ≡ none
      → (next_month m >>= month_time) ≡ end
      → (close_open faults b m at by end).0 ≡ ok out
      → Closed out (close_open faults b m at by end).1
  unfolding close_open
  opened-Closed (err e) free ends h = absurd (cc h)
  opened-Closed panic free ends h = absurd (cc h)
  opened-Closed (ok end) free ends h = elim (Bool-cases (ltb_ℤ at (midnight (days_before end)))) [
    | inl early ↦ absurd (cc (rw early at h))
    | inr late ↦
        rw late (stored-Closed end (assemble faults b m) free ends late refl (rw late at h))
  ]

  pub close_round-Closed :
      {out : Round}
      → (close_round faults b m at by).0 ≡ ok out
      → Closed out (close_round faults b m at by).1
  unfolding close_round
  close_round-Closed h = elim (reading (get_round faults b.rounds m)) [
    | read r e ↦ absurd (cc (rw (e, close_round) at h))
    | missing x e gone ↦
        rw (e, gone, close_round)
          (opened-Closed (next_month m >>= month_time) (get_round-missing x e gone) refl
            (rw (e, gone, close_round) at h))
    | failed x e other ↦ absurd (cc (rw (e, other, close_round) at h))
    | crashed e ↦ absurd (cc (rw (e, close_round) at h))
  ]
