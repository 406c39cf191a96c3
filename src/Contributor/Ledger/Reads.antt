-- ===== src/Contributor/Ledger/Reads.antt =====
-- The reads of contributor/ledger.go that succeeded under failing calls answer alike where none fails.
use blue.Prelude.{
  Text, ◌≡◌, refl, ap, ℤ, true, false, List, Option, none, Bool-cases, inl, inr, arith,
}
use blue.Document.{Collection}
use blue.Contributor.Result.{
  Error, Result, ok, err, panic, ◌>>=◌, not_found, already_exists, wrap_error, program_for,
  >>=-eq-ok, >>-eq-ok, wrap_error-eq-ok,
}
use blue.Contributor.Month.{validate_month, prev_month}
use blue.Contributor.Program.{Program}
use blue.Contributor.Award.{Award, AwardStatus, approved}
use blue.Contributor.Receipt.{Receipt}
use blue.Contributor.Round.{Round}
use blue.Contributor.Obligation.{Obligation}
use blue.Contributor.Store.{
  Books, Call, get, get_round, list_documents, list_programs, program_effective,
  list_month_receipts, list_awards, list_rounds,
}
use blue.Contributor.Ledger.{
  is_not_found, is_already_exists, none_earlier, carried, carryforward, assemble,
}

-- No call fails.
abbrev pub sound : Call → Option Text
sound call = none

-- What a Get may answer.
pub data Reading {ℓ} {A : Type ℓ} (r : Result A) : Type ℓ where
  read : (a : A) → r ≡ ok a → Reading r
  missing : (e : Error) → r ≡ err e → is_not_found e ≡ true → Reading r
  failed : (e : Error) → r ≡ err e → is_not_found e ≡ false → Reading r
  crashed : r ≡ panic → Reading r

pub reading {ℓ} : {A : Type ℓ} (r : Result A) → Reading r
reading (ok a) = read a refl
reading (err e) = elim (Bool-cases (is_not_found e)) [
  | inl h ↦ missing e refl h
  | inr h ↦ failed e refl h
]
reading panic = crashed refl

already : (e : Error) → is_already_exists e ≡ true → e ≡ already_exists
already e h = ground arith

-- What a Create may answer.
pub data Creating {ℓ} {A : Type ℓ} (r : Result A) : Type ℓ where
  made : (next : A) → r ≡ ok next → Creating r
  there : r ≡ err already_exists → Creating r
  stopped : (e : Error) → r ≡ err e → is_already_exists e ≡ false → Creating r
  panicked : r ≡ panic → Creating r

pub creating {ℓ} : {A : Type ℓ} (r : Result A) → Creating r
creating (ok next) = made next refl
creating panic = panicked refl
creating (err e) = elim (Bool-cases (is_already_exists e)) [
  | inl h ↦ there (ap (λ x. err x) (already e h))
  | inr h ↦ stopped e refl h
]

module _ (faults : Call → Option Text) where
  program_effective-sound :
      (db : Collection Program) (m : Text) {p : Program}
      → program_effective faults db m ≡ ok p
      → program_effective sound db m ≡ ok p
  unfolding program_effective list_programs list_documents
  program_effective-sound db m h = ground arith

  list_month_receipts-sound :
      (db : Collection Receipt) (m : Text) {rs : List Receipt}
      → list_month_receipts faults db m ≡ ok rs
      → list_month_receipts sound db m ≡ ok rs
  unfolding list_month_receipts list_documents
  list_month_receipts-sound db m h = ground arith

  list_awards-sound :
      (db : Collection Award) (status : AwardStatus) {as' : List Award}
      → list_awards faults db status ≡ ok as'
      → list_awards sound db status ≡ ok as'
  unfolding list_awards list_documents
  list_awards-sound db status h = ground arith

  pub get_round-ok :
      (db : Collection Round) (m : Text) {r : Round}
      → get_round faults db m ≡ ok r
      → get_round sound db m ≡ ok r
  unfolding get_round get
  get_round-ok db m h = ground arith

  pub get_round-missing :
      (db : Collection Round) (m : Text) {e : Error}
      → get_round faults db m ≡ err e
      → is_not_found e ≡ true
      → get_round sound db m ≡ err not_found
  unfolding get_round get
  get_round-missing db m h gone = ground arith

  earlier-sound :
      (db : Collection Round) (m : Text) {z : ℤ}
      → (list_rounds faults db >>= none_earlier m) ≡ ok z
      → (list_rounds sound db >>= none_earlier m) ≡ ok z
  unfolding list_rounds list_documents
  earlier-sound db m h = ground arith

  carried-sound :
      (db : Collection Round) (m prev : Text) {z : ℤ}
      → carried faults db m (get_round faults db prev) ≡ ok z
      → carried sound db m (get_round sound db prev) ≡ ok z
  unfolding carried
  carried-sound db m prev h = elim (reading (get_round faults db prev)) [
    | read r e ↦ rw (get_round-ok db prev e, carried) (rw (e, carried) at h)
    | missing x e gone ↦
        rw (get_round-missing db prev e gone, carried)
          (earlier-sound db m (rw (e, gone, carried) at h))
    | failed x e other ↦ absurd (cc (rw (e, other, carried) at h))
    | crashed e ↦ absurd (cc (rw (e, carried) at h))
  ]

  carryforward-sound :
      (db : Collection Round) (m : Text) {z : ℤ}
      → carryforward faults db m ≡ ok z
      → carryforward sound db m ≡ ok z
  unfolding carryforward
  carryforward-sound db m h =
      let (prev, e, rest) =
        >>=-eq-ok (prev_month m) (λ prev. carried faults db m (get_round faults db prev)) h in
      rw e (carried-sound db m prev rest)

  -- What Ledger.assemble computes does not depend on calls that may fail and did not.
  pub assemble-sound :
      (b : Books) (m : Text) {x : Round × List Obligation}
      → assemble faults b m ≡ ok x
      → assemble sound b m ≡ ok x
  unfolding assemble
  assemble-sound b m h =
      let (valid, h1) = >>-eq-ok (validate_month m) _ h in
      let (p, e2, h2) =
        >>=-eq-ok (wrap_error (program_for m) (program_effective faults b.programs m)) _ h1 in
      let (rs, e3, h3) = >>=-eq-ok (list_month_receipts faults b.receipts m) _ h2 in
      let (as', e4, h4) = >>=-eq-ok (list_awards faults b.awards approved) _ h3 in
      let (z, e5, h5) = >>=-eq-ok (carryforward faults b.rounds m) _ h4 in
      rw
        (
          valid,
          program_effective-sound b.programs m
              (wrap_error-eq-ok (program_for m) (program_effective faults b.programs m) e2),
          list_month_receipts-sound b.receipts m e3,
          list_awards-sound b.awards approved e4,
          carryforward-sound b.rounds m e5,
        )
        h5
