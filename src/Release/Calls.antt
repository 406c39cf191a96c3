-- ===== src/Release/Calls.antt =====
-- The calls on releases and packages, in any order, and the documents that those on packages leave as they are.
use blue.Prelude.{
  Text, text_eq, true, false, ◌≡◌, refl, List, [], ◌∷◌, Option, ◌⊎◌, inl, inr, Bool-cases,
  Option-cases, is_empty,
}
use blue.Document.{Collection, find}
use blue.Document.Outcome.{Outcome, done, failed, crashed, Failure}
use blue.Release.{
  Package, Bundle, package_doc, bundle_doc, data_doc, Docs, Read, make_package_doc_id,
  with_metadata, upload, delete, create, get_package, delete_package, update_package_metadata,
}
use blue.Release.Chunks.{contents}
use blue.Release.Apart.{is_plain, find-put_other, find-remove_other}

-- The calls that change the documents. Each Upload and Create has its own reads and its own failures of Set.
pub data Call : Type 0 where
  upload_call : (Text → Option Failure) → Bundle → List Read → Call
  create_call : (Text → Option Failure) → Package → Call
  metadata_call : Text → Collection Text → Call
  delete_call : Text → Text → Call
  delete_package_call : Text → Call

-- A call that answers with an error has changed nothing.
abbrev pub documents : Docs → Outcome Docs → Docs
documents db (done db') = db'
documents db (failed e) = db
documents db crashed = db

abbrev pub call : (Text → Text) → Call → Docs → Docs
call hash (upload_call faults b reads) db = (upload hash faults b reads db).0
call hash (create_call faults p) db = documents db (create faults p db)
call hash (metadata_call pkg updates) db = documents db (update_package_metadata pkg updates db)
call hash (delete_call pkg ver) db = documents db (delete pkg ver db)
call hash (delete_package_call pkg) db = documents db (delete_package pkg db)

abbrev pub run : (Text → Text) → List Call → Docs → Docs
run hash [] db = db
run hash (c ∷ cs) db = run hash cs (call hash c db)

-- The calls on releases name packages that are plain.
abbrev pub ArePlain : List Call → Type 0
ArePlain [] = Unit
ArePlain (upload_call faults b reads ∷ cs) = (is_plain b.pkg ≡ true) × ArePlain cs
ArePlain (create_call faults p ∷ cs) = ArePlain cs
ArePlain (metadata_call pkg updates ∷ cs) = ArePlain cs
ArePlain (delete_call pkg ver ∷ cs) = (is_plain pkg ≡ true) × ArePlain cs
ArePlain (delete_package_call pkg ∷ cs) = ArePlain cs

-- One of the calls is an Upload of the bundle, and reads the bytes.
abbrev pub Uploads : List Call → Bundle → Text → Type 0
Uploads [] b bytes = ⊥
Uploads (upload_call faults c reads ∷ cs) b bytes =
    ((c ≡ b) × (contents reads ≡ bytes)) ⊎ Uploads cs b bytes
Uploads (create_call faults p ∷ cs) b bytes = Uploads cs b bytes
Uploads (metadata_call pkg updates ∷ cs) b bytes = Uploads cs b bytes
Uploads (delete_call pkg ver ∷ cs) b bytes = Uploads cs b bytes
Uploads (delete_package_call pkg ∷ cs) b bytes = Uploads cs b bytes

-- The documents of a package are the only ones that differ.
abbrev pub OnlyPackage : Text → Docs → Docs → Type 0
OnlyPackage p db db' =
    (id : Text) → text_eq (make_package_doc_id p) id ≡ false → find db' id ≡ find db id

pub create-Only :
    (faults : Text → Option Failure) (p : Package) (db : Docs)
    → OnlyPackage p.name db (documents db (create faults p db))
unfolding create
create-Only faults p db id apart = elim (Bool-cases (is_empty p.name)) [
  | inl g ↦ rw g refl
  | inr g ↦ elim (Option-cases (faults (make_package_doc_id p.name))) [
    | inr (x, f) ↦ rw (g, f) refl
    | inl f ↦ rw (g, f) (find-put_other db (make_package_doc_id p.name) (package_doc p) id apart)
  ]
]

pub update_package_metadata-Only :
    (pkg : Text) (updates : Collection Text) (db : Docs)
    → OnlyPackage pkg db (documents db (update_package_metadata pkg updates db))
unfolding update_package_metadata
update_package_metadata-Only pkg [] db id apart = refl
update_package_metadata-Only pkg (u ∷ updates) db id apart = elim (Bool-cases (is_empty pkg)) [
  | inl g ↦ rw g refl
  | inr g ↦ elim (Option-cases (find db (make_package_doc_id pkg))) [
    | inl f ↦ rw (g, f) refl
    | inr (d, f) ↦
        rw (g, f)
          (find-put_other db (make_package_doc_id pkg) (with_metadata (u ∷ updates) d) id apart)
  ]
]

pub delete_package-Only :
    (pkg : Text) (db : Docs) → OnlyPackage pkg db (documents db (delete_package pkg db))
unfolding delete_package get_package
delete_package-Only pkg db id apart = elim (Option-cases (find db (make_package_doc_id pkg))) [
  | inl f ↦ rw f refl
  | inr (package_doc p, f) ↦ rw f (find-remove_other db (make_package_doc_id pkg) id apart)
  | inr (bundle_doc b ids sum, f) ↦ rw f refl
  | inr (data_doc s, f) ↦ rw f (find-remove_other db (make_package_doc_id pkg) id apart)
]
