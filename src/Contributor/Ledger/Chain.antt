-- ===== src/Contributor/Ledger/Chain.antt =====
-- The closed rounds of contributor/ledger.go, one month after the other.
use blue.Prelude.{
  Text, text_eq, text_eq→eq, ◌≡◌, refl, sym, ap, ◌∙◌, ℤ, pos, true, List, [], ◌∷◌, Option, some,
  All, Bool-cases, inl, inr, arith, if◌then◌else◌,
}
use mathlib.Core.Path.{subst}
use blue.Document.{Collection, find, select}
use blue.Contributor.Result.{Result, ok, ◌>>=◌, >>=-eq-ok, >>-eq-ok, wrap_error, program_for}
use blue.Contributor.Month.{validate_month, prev_month, before}
use blue.Contributor.Month.Succession.{before-prev_month, before_trans, no_month_between}
use blue.Contributor.Round.{Round}
use blue.Contributor.Award.{approved}
use blue.Contributor.Obligation.{Obligation}
use blue.Contributor.Compute.{round_of}
use blue.Contributor.Compute.Inversion.{compute_round-Computed}
use blue.Contributor.Store.{
  Books, Call, get, get_round, list_documents, list_rounds, program_effective, list_month_receipts,
  list_awards,
}
use blue.Contributor.Ledger.{none_earlier, carried, carryforward, assemble, close_round}
use blue.Contributor.Ledger.Commit.{close_round-Closed}
use blue.Contributor.Ledger.Reads.{reading, read, missing, failed, crashed}

-- A round carries forward what the one before it left, and nothing where there is none.
abbrev pub Follows : Text → Round → Collection Round → Type 0
Follows m r [] = r.carryforward_cents ≡ pos 0
Follows m r ((k, q) ∷ rounds) = (prev_month m ≡ ok k) × (r.carryforward_cents ≡ q.unallocated_cents)

-- The closed rounds, the latest first: each is under its own month, which is a month and the one after
-- that of the round before, and carries forward what that round left.
abbrev pub IsSequence : Collection Round → Type 0
IsSequence [] = Unit {0}
IsSequence ((m, r) ∷ rounds) =
    (r.month ≡ m) × (validate_month m ≡ ok tt) × Follows m r rounds × IsSequence rounds

find-first :
    (k : Text) (q : Round) (rounds : Collection Round) (p : Text)
    → find ((k, q) ∷ rounds) p ≡ (if text_eq k p then some q else find rounds p)
unfolding find
find-first k q rounds p = refl

-- A round that stands after the first has an earlier month, and it is a month.
find-earlier :
    (k : Text) (q : Round) (rounds : Collection Round) (p : Text) {x : Round}
    → IsSequence ((k, q) ∷ rounds)
    → find rounds p ≡ some x
    → (before p k ≡ true) × (validate_month p ≡ ok tt)
unfolding find
find-earlier k q [] p v h = absurd (cc h)
find-earlier k q ((k', q') ∷ rounds) p v h =
    let (_, valid', _, _) = v.3 in
    let step : before k' k ≡ true = before-prev_month k k' v.1 valid' v.2.0 in
    elim (Bool-cases (text_eq k' p)) [
      | inl same ↦
          let e : k' ≡ p = text_eq→eq k' p same in
          (ap (λ (t : Text). before t k) (sym e) ∙ step, ap validate_month (sym e) ∙ valid')
      | inr other ↦
          let (earlier, valid) = find-earlier k' q' rounds p v.3 (rw other at h) in
          (before_trans p k' k earlier step, valid)
    ]

select-all : (rs : List Round) → select (λ r. true) rs ≡ rs
unfolding select
select-all [] = refl
select-all (r ∷ rs) = ap (◌∷◌ r) (select-all rs)

module _ (faults : Call → Option Text) where
  get_round-find :
      (rounds : Collection Round) (p : Text) {x : Round}
      → get_round faults rounds p ≡ ok x
      → find rounds p ≡ some x
  unfolding get_round get
  get_round-find rounds p h = ground arith

  no_rounds : (p : Text) {x : Round} → find [] p ≡ some x → ⊥
  unfolding find
  no_rounds p h = cc h

  none_carried : (m : Text) {z : ℤ} → (list_rounds faults [] >>= none_earlier m) ≡ ok z → z ≡ pos 0
  unfolding list_rounds list_documents none_earlier select
  none_carried m h = ground arith

  later_refused :
      (m k : Text) (q : Round) (rounds : Collection Round) {z : ℤ}
      → before q.month m ≡ true
      → (list_rounds faults ((k, q) ∷ rounds) >>= none_earlier m) ≡ ok z
      → ⊥
  unfolding list_rounds list_documents none_earlier select
  later_refused m k q rounds early h = ground arith

  the_round : {y z : Round} → ◌≡◌ {A = Option Round} (some y) (some z) → y ≡ z
  the_round h = cc h

  the_value : {y z : ℤ} → ◌≡◌ {A = Result ℤ} (ok y) (ok z) → y ≡ z
  the_value h = cc h

  before_found :
      (k : Text) (q : Round) (rounds : Collection Round) (m p : Text) (r x : Round)
      → IsSequence ((k, q) ∷ rounds)
      → All (λ e. before e.0 m ≡ true) ((k, q) ∷ rounds)
      → validate_month m ≡ ok tt
      → prev_month m ≡ ok p
      → (if text_eq k p then some q else find rounds p) ≡ some x
      → r.carryforward_cents ≡ x.unallocated_cents
      → Follows m r ((k, q) ∷ rounds)
  before_found k q rounds m p r x v all vm prev h amount = elim (Bool-cases (text_eq k p)) [
    | inl same ↦
        let found : q ≡ x = the_round (rw same at h) in
        (
          prev ∙ ap (λ (t : Text). ok t) (sym (text_eq→eq k p same)),
          amount ∙ ap (λ (y : Round). y.unallocated_cents) (sym found),
        )
    | inr other ↦
        let (earlier, vp) = find-earlier k q rounds p v (rw other at h) in
        absurd (no_month_between m p k vm vp v.1 prev earlier all.0)
  ]

  carried-Follows :
      (rounds : Collection Round) (m p : Text) (r : Round)
      → IsSequence rounds
      → All (λ e. before e.0 m ≡ true) rounds
      → validate_month m ≡ ok tt
      → prev_month m ≡ ok p
      → carried faults rounds m (get_round faults rounds p) ≡ ok r.carryforward_cents
      → Follows m r rounds
  unfolding carried
  carried-Follows [] m p r v all vm prev h = elim (reading (get_round faults [] p)) [
    | read x e ↦ absurd (no_rounds p (get_round-find [] p e))
    | missing x e gone ↦ none_carried m (rw (e, gone, carried) at h)
    | failed x e other ↦ absurd (cc (rw (e, other, carried) at h))
    | crashed e ↦ absurd (cc (rw (e, carried) at h))
  ]
  carried-Follows ((k, q) ∷ rounds) m p r v all vm prev h =
      elim (reading (get_round faults ((k, q) ∷ rounds) p)) [
        | read x e ↦
            let held : find ((k, q) ∷ rounds) p ≡ some x = get_round-find ((k, q) ∷ rounds) p e in
            let amount : r.carryforward_cents ≡ x.unallocated_cents =
              the_value (sym (rw (e, carried) at h)) in
            before_found k q rounds m p r x v all vm prev (sym (find-first k q rounds p) ∙ held)
              amount
        | missing x e gone ↦ absurd (
            later_refused m k q rounds (ap (λ (t : Text). before t m) v.0 ∙ all.0)
              (rw (e, gone, carried) at h))
        | failed x e other ↦ absurd (cc (rw (e, other, carried) at h))
        | crashed e ↦ absurd (cc (rw (e, carried) at h))
      ]

  -- What Ledger.assemble computes for a month after all closed rounds follows them.
  assemble-Follows :
      (b : Books) (m : Text) {round : Round} {os : List Obligation}
      → IsSequence b.rounds
      → All (λ e. before e.0 m ≡ true) b.rounds
      → assemble faults b m ≡ ok (round, os)
      → (round.month ≡ m) × (validate_month m ≡ ok tt) × Follows m round b.rounds
  unfolding assemble carryforward round_of
  assemble-Follows b m {round} {os} v all h =
      let (valid, h1) = >>-eq-ok (validate_month m) _ h in
      let (p, e2, h2) =
        >>=-eq-ok (wrap_error (program_for m) (program_effective faults b.programs m)) _ h1 in
      let (rs, e3, h3) = >>=-eq-ok (list_month_receipts faults b.receipts m) _ h2 in
      let (as', e4, h4) = >>=-eq-ok (list_awards faults b.awards approved) _ h3 in
      let (z, e5, h5) = >>=-eq-ok (carryforward faults b.rounds m) _ h4 in
      let (prev, e6, h6) =
        >>=-eq-ok (prev_month m)
          (λ prev. carried faults b.rounds m (get_round faults b.rounds prev)) e5 in
      let c = compute_round-Computed p m rs as' z round os h5 in
      let amount : round.carryforward_cents ≡ z =
        ap (λ (y : Round). y.carryforward_cents) c.round_eq in
      (
        ap (λ (y : Round). y.month) c.round_eq,
        valid,
        carried-Follows b.rounds m prev round v all valid e6 (h6 ∙ ap (λ y. ok y) (sym amount)),
      )

Follows-same :
    (m : Text) (r x : Round) (rounds : Collection Round)
    → x.carryforward_cents ≡ r.carryforward_cents
    → Follows m r rounds
    → Follows m x rounds
Follows-same m r x [] e h = e ∙ h
Follows-same m r x ((k, q) ∷ rounds) e h = (h.0, e ∙ h.1)

-- Closing a month after all closed months keeps the rounds a sequence of months without a gap, in
-- which each carries forward what the one before it left.
pub close_round-IsSequence :
    (faults : Call → Option Text) (b : Books) (m : Text) (at : ℤ) (by : Text) (r : Round)
    → IsSequence b.rounds
    → All (λ e. before e.0 m ≡ true) b.rounds
    → (close_round faults b m at by).0 ≡ ok r
    → IsSequence (close_round faults b m at by).1.rounds
close_round-IsSequence faults b m at by r v all h =
    let c = close_round-Closed faults b m at by h in
    let (month, valid, follows) = assemble-Follows faults b m v all c.assembled in
    let same : r.month ≡ m = ap (λ (y : Round). y.month) c.round_eq ∙ month in
    let carried : r.carryforward_cents ≡ c.round.carryforward_cents =
      ap (λ (y : Round). y.carryforward_cents) c.round_eq in
    subst (λ (x : Books). IsSequence x.rounds) (sym c.books_eq)
      (
        refl,
        ap validate_month same ∙ valid,
        subst (λ (t : Text). Follows t r b.rounds) (sym same)
            (Follows-same m c.round r b.rounds carried follows),
        v,
      )
