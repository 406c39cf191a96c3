-- ===== src/Contributor/Ledger/Obligations.antt =====
-- The obligations that CloseRound of contributor/ledger.go stores, again and under calls that fail.
use blue.Prelude.{
  Text, ◌≡◌, refl, sym, ap, ◌∙◌, ℤ, false, List, [], ◌∷◌, Option, none, some, Option-cases, inl,
  inr, arith, is_empty,
}
use blue.Document.{Collection, find}
use blue.Document.Laws.{find-cons_keeps, find-cons_self}
use blue.Contributor.Result.{Error, ok, err, panic, already_exists, obligation_failed}
use blue.Contributor.Month.{validate_month}
use blue.Contributor.Obligation.{Obligation, id_of}
use blue.Contributor.Store.{Call, create, create_obligation}
use blue.Contributor.Ledger.Reads.{creating, made, there, stopped, panicked, sound}
use blue.Contributor.Ledger.{is_already_exists, earned_at, create_all}

-- What CreateObligation checks before it calls its service.
pub record IsCreatable (o : Obligation) : Type 0 where
  pub has_month : validate_month o.month ≡ ok tt
  pub has_account : is_empty o.account ≡ false

pub create-ok :
    (faults : Call → Option Text) (db : Collection Obligation) (o : Obligation)
    {next : Collection Obligation}
    → create_obligation faults db o ≡ ok next
    → IsCreatable o × (find db (id_of o) ≡ none) × (next ≡ (id_of o, o) ∷ db)
unfolding create_obligation create
create-ok faults db o h = ground arith

pub create-exists :
    (faults : Call → Option Text) (db : Collection Obligation) (o : Obligation)
    → create_obligation faults db o ≡ err already_exists
    → IsCreatable o × (d : Obligation) × (find db (id_of o) ≡ some d)
unfolding create_obligation create
create-exists faults db o h = elim (Option-cases (find db (id_of o))) [
  | inl none_there ↦ absurd (ground arith)
  | inr (d, held) ↦ (ground arith, d, held)
]

pub create-fresh :
    (db : Collection Obligation) (o : Obligation)
    → IsCreatable o
    → find db (id_of o) ≡ none
    → create_obligation sound db o ≡ ok ((id_of o, o) ∷ db)
unfolding create_obligation create
create-fresh db o v h = rw (v.has_month, v.has_account, h) refl

pub create-again :
    (db : Collection Obligation) (o : Obligation) {d : Obligation}
    → IsCreatable o
    → find db (id_of o) ≡ some d
    → create_obligation sound db o ≡ err already_exists
unfolding create_obligation create
create-again db o v h = rw (v.has_month, v.has_account, h) refl

module _ (faults : Call → Option Text) (m : Text) (at : ℤ) where
  pub all-created :
      (db : Collection Obligation) (o : Obligation) (os : List Obligation)
      {next : Collection Obligation}
      → create_obligation faults db (earned_at m at o) ≡ ok next
      → create_all faults db m at (o ∷ os) ≡ create_all faults next m at os
  unfolding create_all
  all-created db o os h = rw (h, create_all) refl

  pub all-kept :
      (db : Collection Obligation) (o : Obligation) (os : List Obligation)
      → create_obligation faults db (earned_at m at o) ≡ err already_exists
      → create_all faults db m at (o ∷ os) ≡ create_all faults db m at os
  unfolding create_all
  all-kept db o os h = rw (h, create_all) refl

  pub all-stopped :
      (db : Collection Obligation) (o : Obligation) (os : List Obligation) (e : Error)
      → create_obligation faults db (earned_at m at o) ≡ err e
      → is_already_exists e ≡ false
      → create_all faults db m at (o ∷ os) ≡ (err (obligation_failed m (id_of o) e), db)
  unfolding create_all id_of
  all-stopped db o os e h other = rw (h, other, create_all) refl

  pub all-panicked :
      (db : Collection Obligation) (o : Obligation) (os : List Obligation)
      → create_obligation faults db (earned_at m at o) ≡ panic
      → create_all faults db m at (o ∷ os) ≡ (panic, db)
  unfolding create_all
  all-panicked db o os h = rw (h, create_all) refl

  -- What is stored stays.
  pub create_all-keeps :
      (db : Collection Obligation) (os : List Obligation) (id : Text) {d : Obligation}
      → find db id ≡ some d
      → find (create_all faults db m at os).1 id ≡ some d
  unfolding create_all
  create_all-keeps db [] id h = h
  create_all-keeps db (o ∷ os) id {d} h =
      elim (creating (create_obligation faults db (earned_at m at o))) [
        | made next e ↦
            let (v, free, same) = create-ok faults db (earned_at m at o) e in
            rw (all-created db o os e) (
              create_all-keeps next os id (
                rw same
                  (find-cons_keeps db (id_of (earned_at m at o)) id (earned_at m at o) free h)))
        | there e ↦ rw (all-kept db o os e) (create_all-keeps db os id h)
        | stopped e x other ↦ rw (all-stopped db o os e x other) h
        | panicked e ↦ rw (all-panicked db o os e) h
      ]

module _ (faults : Call → Option Text) (m : Text) (at : ℤ) where
  -- Where the first obligation is there already, it is skipped.
  pub skipped :
      (db : Collection Obligation) (o : Obligation) (os : List Obligation) {d : Obligation}
      → IsCreatable (earned_at m at o)
      → find db (id_of (earned_at m at o)) ≡ some d
      → create_all sound db m at (o ∷ os) ≡ create_all sound db m at os
  skipped db o os v h = all-kept sound m at db o os (create-again db (earned_at m at o) v h)

  pub nothing_made :
      (db : Collection Obligation)
      → create_all sound (create_all faults db m at []).1 m at [] ≡ create_all sound db m at []
  unfolding create_all
  nothing_made db = refl

  -- Running the loop again after one that may have failed is running it once.
  pub create_all-again :
      (db : Collection Obligation) (os : List Obligation)
      → create_all sound (create_all faults db m at os).1 m at os ≡ create_all sound db m at os
  create_all-again db [] = nothing_made db
  create_all-again db (o ∷ os) = elim (creating (create_obligation faults db (earned_at m at o))) [
    | made next e ↦
        let (v, free, same) = create-ok faults db (earned_at m at o) e in
        let o' : Obligation = earned_at m at o in
        let here : find next (id_of o') ≡ some o' = rw same (find-cons_self db (id_of o') o') in
        rw (all-created faults m at db o os e) (
          skipped (create_all faults next m at os).1 o os v
            (create_all-keeps faults m at next os (id_of o') here)
          ∙ create_all-again next os
          ∙ sym (
              all-created sound m at db o os
                (create-fresh db o' v free ∙ ap (λ c. ok c) (sym same))))
    | there e ↦
        let (v, d, h) = create-exists faults db (earned_at m at o) e in
        rw (all-kept faults m at db o os e) (
          skipped (create_all faults db m at os).1 o os v
            (create_all-keeps faults m at db os (id_of (earned_at m at o)) h)
          ∙ create_all-again db os
          ∙ sym (skipped db o os v h))
    | stopped e x other ↦ rw (all-stopped faults m at db o os e x other) refl
    | panicked e ↦ rw (all-panicked faults m at db o os e) refl
  ]
