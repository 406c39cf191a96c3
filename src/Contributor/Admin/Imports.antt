-- ===== src/Contributor/Admin/Imports.antt =====
-- ImportReceipts of contributor/admin.go, run again.
use blue.Prelude.{
  ℕ, ◌+◌, ◌≡◌, refl, ap, ◌∙◌, Text, List, [], ◌∷◌, Option, none, some, length, All, Option-cases,
  inl, inr, arith,
}
use blue.Document.{Collection, find}
use blue.Document.Laws.{find-cons_keeps, find-cons_self}
use blue.Contributor.Result.{Result, ok, err, already_exists}
use blue.Contributor.Receipt.{Receipt, Adjustment, validate_receipt, validate_adjustments}
use blue.Contributor.Store.{Books, Call, create, create_receipt}
use blue.Contributor.Ledger.Reads.{creating, made, there, stopped, panicked, sound}
use blue.Contributor.Admin.{import_from, import_receipts}

-- What was imported: it is valid, and stored under its source.
record IsImported (db : Collection Receipt) (r : Receipt) : Type 0 where
  valid : validate_receipt r ≡ ok tt
  kept : Receipt
  found : find db r.source ≡ some kept

create-ok :
    (faults : Call → Option Text) (db : Collection Receipt) (r : Receipt)
    {next : Collection Receipt}
    → create_receipt faults db r ≡ ok next
    → (validate_receipt r ≡ ok tt) × (find db r.source ≡ none) × (next ≡ (r.source, r) ∷ db)
unfolding create_receipt create
create-ok faults db r h = ground arith

-- No error of Validate is one of the document service.
adjustments_differ : (as' : List Adjustment) → validate_adjustments as' ≡ err already_exists → ⊥
unfolding validate_adjustments
adjustments_differ [] h = cc h
adjustments_differ (a ∷ as') h = ground (arith, adjustments_differ as')

receipt_differs : (r : Receipt) → validate_receipt r ≡ err already_exists → ⊥
unfolding validate_receipt
receipt_differs r h = ground (arith, adjustments_differ r.adjustments)

create-exists :
    (faults : Call → Option Text) (db : Collection Receipt) (r : Receipt)
    → create_receipt faults db r ≡ err already_exists
    → (validate_receipt r ≡ ok tt) × (d : Receipt) × (find db r.source ≡ some d)
unfolding create_receipt create
create-exists faults db r h = elim (Option-cases (find db r.source)) [
  | inl free ↦ absurd (ground (arith, receipt_differs r))
  | inr (d, held) ↦ (ground (arith, receipt_differs r), d, held)
]

create-again :
    (db : Collection Receipt) (r : Receipt)
    → IsImported db r
    → create_receipt sound db r ≡ err already_exists
unfolding create_receipt create
create-again db r v = rw (v.valid, v.found) refl

-- What an import that succeeded leaves.
record Leaves (faults : Call → Option Text) (db : Collection Receipt) (rs : List Receipt) (i d : ℕ)
    (out : Result (Unit {0}) × (ℕ × ℕ) × Collection Receipt) : Type 0 where
  imported : All (IsImported out.2) rs
  counted : out.1.0 + out.1.1 ≡ i + d + length rs
  keeps : (id : Text) (x : Receipt) → find db id ≡ some x → find out.2 id ≡ some x

import-Leaves :
    (faults : Call → Option Text) (i d : ℕ) (db : Collection Receipt) (rs : List Receipt)
    → (import_from faults i d db rs).0 ≡ ok tt
    → Leaves faults db rs i d (import_from faults i d db rs)
unfolding import_from
import-Leaves faults i d db [] h = record {
  imported = tt;
  counted = omega arith;
  keeps = λ id x e. e;
}
import-Leaves faults i d db (r ∷ rs) h = elim (creating (create_receipt faults db r)) [
  | made next e ↦
      let (valid, free, same) = create-ok faults db r e in
      let rest = import-Leaves faults (i + 1) d next rs (rw (e, import_from) at h) in
      let here : find next r.source ≡ some r = rw same (find-cons_self db r.source r) in
      rw (e, import_from)
        (record {
          imported = (
            record { valid = valid; kept = r; found = rest.keeps r.source r here },
            rest.imported,
          );
          counted = omega (arith, rest.counted);
          keeps =
              λ id x held. rest.keeps id x (rw same (find-cons_keeps db r.source id r free held));
        })
  | there e ↦
      let (valid, kept, found) = create-exists faults db r e in
      let rest = import-Leaves faults i (d + 1) db rs (rw (e, import_from) at h) in
      rw (e, import_from)
        (record {
          imported = (
            record { valid = valid; kept = kept; found = rest.keeps r.source kept found },
            rest.imported,
          );
          counted = omega (arith, rest.counted);
          keeps = rest.keeps;
        })
  | stopped x e other ↦ absurd (cc (rw (e, other, import_from) at h))
  | panicked e ↦ absurd (cc (rw (e, import_from) at h))
]

import-duplicates :
    (i d : ℕ) (db : Collection Receipt) (rs : List Receipt)
    → All (IsImported db) rs
    → import_from sound i d db rs ≡ (ok tt, (i, d + length rs), db)
unfolding import_from
import-duplicates i d db [] all = ap (λ (n : ℕ). (ok tt, (i, n), db)) (omega arith)
import-duplicates i d db (r ∷ rs) all =
    rw (create-again db r all.0, import_from)
      (import-duplicates i (d + 1) db rs all.1 ∙ ap (λ (n : ℕ). (ok tt, (i, n), db)) (omega arith))

-- An import that succeeded has counted every receipt once; importing the same receipts again, where no
-- call fails, imports none, counts all as duplicates and changes nothing.
pub import_receipts_again :
    (faults : Call → Option Text) (b : Books) (rs : List Receipt)
    → (import_receipts faults b rs).0 ≡ ok tt
    → ((import_receipts faults b rs).1.0 + (import_receipts faults b rs).1.1 ≡ length rs)
      × (import_receipts sound (import_receipts faults b rs).2 rs
          ≡ (ok tt, (0, length rs), (import_receipts faults b rs).2))
unfolding import_receipts
import_receipts_again faults b rs h =
    let left = import-Leaves faults 0 0 b.receipts rs h in
    (
      omega (arith, left.counted),
      rw (import-duplicates 0 0 (import_from faults 0 0 b.receipts rs).2 rs left.imported) (
          ap
            (λ (n : ℕ).
              (ok tt, (0, n), record b { receipts = (import_from faults 0 0 b.receipts rs).2 }))
            (omega arith)),
    )
