-- ===== src/Release/RoundTrip.antt =====
-- A bundle that was uploaded is downloaded with its data.
use blue.Prelude.{
  ℕ, ◌≤◌, Text, text_eq_refl, is_empty, false, true, ◌||◌, ◌≡◌, refl, sym, ap, ◌∙◌, List, [], ◌∷◌,
  ◌++◌, Option, some, Bool-cases, Option-cases, inl, inr,
}
use mathlib.Core.Path.{subst}
use mathlib.Core.List.{append_assoc, append-nil}
use blue.Document.{find, put}
use blue.Document.Outcome.{Outcome, done, failed, crashed, Failure}
use blue.Release.{
  Bundle, Doc, bundle_doc, Docs, Read, make_chunk_id, make_release_doc_id, make_package_doc_id,
  create_data_chunks, with_latest, point_latest, finish_upload, upload_new, upload, write_chunks,
  get,
}
use blue.Release.Apart.{
  is_plain, find-put_other, find-put_same, package-release, release-chunk, package-chunk,
}
use blue.Release.Chunks.{contents, HoldChunks, HoldChunks-cong, create_data_chunks-Stored}

-- What an upload that succeeded has done after it stored the chunks.
pub record Finished (b : Bundle) (r : Docs × Outcome (List Text × Text)) (db' : Docs) : Type 0 where
  pub stored : Docs
  pub ids : List Text
  pub checksum : Text
  pub known : r ≡ (stored, done (ids, checksum))
  pub old : Doc
  pub found :
      find
        (put stored (make_release_doc_id b.pkg b.version) (bundle_doc b ids checksum))
        (make_package_doc_id b.pkg)
      ≡ some old
  pub result :
      db'
      ≡ put
          (put stored (make_release_doc_id b.pkg b.version) (bundle_doc b ids checksum))
          (make_package_doc_id b.pkg)
          (with_latest b.version old)

module _ (hash : Text → Text) (faults : Text → Option Failure) (b : Bundle) where
  finish_upload-Finished :
      (r : Docs × Outcome (List Text × Text)) {db' : Docs}
      → finish_upload hash faults b r ≡ (db', done tt)
      → Finished b r db'
  unfolding finish_upload
  finish_upload-Finished (db, failed x) e = absurd (cc (ap (λ r. r.1) e))
  finish_upload-Finished (db, crashed) e = absurd (cc (ap (λ r. r.1) e))
  finish_upload-Finished (db, done (ids, checksum)) {db'} e =
      let rid : Text = make_release_doc_id b.pkg b.version in
      let pid : Text = make_package_doc_id b.pkg in
      let db1 : Docs = put db rid (bundle_doc b ids checksum) in
      elim (Option-cases (faults rid)) [
        | inr (x, f) ↦ absurd (cc (ap (λ r. r.1) (rw (finish_upload, f) at e)))
        | inl f ↦
            let e' : point_latest b db1 (find db1 pid) ≡ (db', done tt) =
              rw (finish_upload, f) at e in
            elim (Option-cases (find db1 pid)) [
              | inl g ↦ absurd (cc (ap (λ r. r.1) (rw g at e')))
              | inr (d, g) ↦ record {
                stored = db;
                ids = ids;
                checksum = checksum;
                known = refl;
                old = d;
                found = g;
                result = sym (ap (λ r. r.0) (rw g at e'));
              }
            ]
      ]

  upload-Finished :
      (reads : List Read) (db : Docs) {db' : Docs}
      → upload hash faults b reads db ≡ (db', done tt)
      → Finished b
          (create_data_chunks hash faults b 0
            (put db (make_release_doc_id b.pkg b.version) (bundle_doc b [] []))
            reads
            []
            [])
          db'
  unfolding upload
  upload-Finished reads db {db'} e = elim (Bool-cases (is_empty b.pkg || is_empty b.version)) [
    | inl g ↦ absurd (cc (ap (λ r. r.1) (rw (upload, g) at e)))
    | inr g ↦
        let e' : upload_new hash faults b reads db (find db (make_release_doc_id b.pkg b.version))
            ≡ (db', done tt) =
          rw (upload, g) at e in
        elim (Option-cases (find db (make_release_doc_id b.pkg b.version))) [
          | inr (old, f) ↦ absurd (cc (ap (λ r. r.1) (rw f at e')))
          | inl f ↦ finish_upload-Finished _ (rw f at e')
        ]
  ]

module _ (hash : Text → Text) (b : Bundle) where
  pub write_chunks-HoldChunks :
      (ids : List Text) (i : ℕ) (db : Docs) (bytes checksum out : Text)
      → HoldChunks b i db ids bytes
      → hash (out ++ bytes) ≡ checksum
      → write_chunks hash db ids checksum out ≡ (out ++ bytes, done tt)
  unfolding write_chunks
  write_chunks-HoldChunks [] i db bytes checksum out h e =
      let whole : (out ++ bytes) ≡ out = ap (λ x. out ++ x) h ∙ append-nil out in
      let same : hash out ≡ checksum = ap hash (sym whole) ∙ e in
      rw (whole, same, text_eq_refl checksum) refl
  write_chunks-HoldChunks (id ∷ ids) i db bytes checksum out (s, rest, f, g, n, h) e =
      let whole : ((out ++ s) ++ rest) ≡ out ++ bytes =
        append_assoc out s rest ∙ ap (λ x. out ++ x) (sym g) in
      rw (write_chunks, f)
        (write_chunks-HoldChunks ids i db rest checksum (out ++ s) h (ap hash whole ∙ e)
          ∙ ap (λ x. (x, done tt)) whole)

-- The documents hold a bundle under its ID, the bytes in its chunks, and their hash.
pub record Uploaded (hash : Text → Text) (b : Bundle) (bytes : Text) (db : Docs) : Type 0 where
  pub ids : List Text
  pub checksum : Text
  pub listed : find db (make_release_doc_id b.pkg b.version) ≡ some (bundle_doc b ids checksum)
  pub held : HoldChunks b 0 db ids bytes
  pub hashed : hash bytes ≡ checksum

pub upload-Uploaded :
    (hash : Text → Text) (faults : Text → Option Failure) (b : Bundle) (reads : List Read)
    (db : Docs) {db' : Docs}
    → is_plain b.pkg ≡ true
    → upload hash faults b reads db ≡ (db', done tt)
    → Uploaded hash b (contents reads) db'
upload-Uploaded hash faults b reads db {db'} plain e =
    let rid : Text = make_release_doc_id b.pkg b.version in
    let pid : Text = make_package_doc_id b.pkg in
    let f = upload-Finished hash faults b reads db e in
    let s =
      create_data_chunks-Stored hash faults b reads 0 (put db rid (bundle_doc b [] [])) [] []
        f.known in
    let db1 : Docs = put f.stored rid (bundle_doc b f.ids f.checksum) in
    let same_ids : f.ids ≡ s.new_ids = ap (λ a. a.0) s.answered in
    let same : (n : ℕ)
        → 0 ≤ n
        → find db' (make_chunk_id b.pkg b.version n)
          ≡ find f.stored (make_chunk_id b.pkg b.version n) =
      λ n l.
        ap (λ d. find d (make_chunk_id b.pkg b.version n)) f.result
        ∙ find-put_other db1 pid (with_latest b.version f.old) _
            (package-chunk b.pkg b.pkg b.version n plain)
        ∙ find-put_other f.stored rid (bundle_doc b f.ids f.checksum) _
            (release-chunk b.pkg b.version b.pkg b.version n plain) in
    record {
      ids = f.ids;
      checksum = f.checksum;
      listed =
          ap (λ d. find d rid) f.result
          ∙ find-put_other db1 pid (with_latest b.version f.old) rid
              (package-release b.pkg b.pkg b.version)
          ∙ find-put_same f.stored rid (bundle_doc b f.ids f.checksum);
      held =
          subst (λ x. HoldChunks b 0 db' x (contents reads)) (sym same_ids)
            (HoldChunks-cong b 0 f.stored db' s.new_ids (contents reads) same s.chunks);
      hashed = sym (ap (λ a. a.1) s.answered);
    }

-- A bundle that the documents hold is downloaded.
pub get-Uploaded :
    (hash : Text → Text) (b : Bundle) (bytes : Text) (db : Docs)
    → Uploaded hash b bytes db
    → get hash b.pkg b.version false db ≡ (bytes, done b)
unfolding get
get-Uploaded hash b bytes db u =
    let written = write_chunks-HoldChunks hash b u.ids 0 db bytes u.checksum [] u.held u.hashed in
    rw (u.listed, written) refl

-- After an Upload that succeeded, Get writes exactly the data that was read and answers with the bundle,
-- whatever the reads were and whatever was stored before, for a package whose name has no colon and is
-- neither "release" nor "package".
pub get-upload :
    (hash : Text → Text) (faults : Text → Option Failure) (b : Bundle) (reads : List Read)
    (db : Docs) {db' : Docs}
    → is_plain b.pkg ≡ true
    → upload hash faults b reads db ≡ (db', done tt)
    → get hash b.pkg b.version false db' ≡ (contents reads, done b)
get-upload hash faults b reads db {db'} plain e =
    get-Uploaded hash b (contents reads) db' (upload-Uploaded hash faults b reads db plain e)
