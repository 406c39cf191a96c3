-- ===== src/Release.antt =====
-- release/docrelease/document_manager.go: packages and their release bundles kept as documents, the data of
-- a bundle cut into chunks. The documents are a collection, of the document service's contract, in which
-- Set may fail.
pub mod Chunks
pub mod RoundTrip
pub mod Apart
pub mod Keeps
pub mod Calls
pub mod Intact
mod Examples
use blue.Prelude.{
  ℕ, suc, ◌+◌, Text, text, text_eq, is_empty, itoa, Bool, true, false, ◌||◌, List, [], ◌∷◌, ◌++◌,
  Option, none, some, if◌then◌else◌,
}
use blue.Document.{Collection, find, put, remove}
use blue.Document.Outcome.{
  Outcome, done, failed, crashed, ◌>>=◌, answer_or, Failure, not_found, already_exists, not_decoded,
  other_failure,
}

-- release.Package, without the time that the store sets.
pub record Package : Type 0 where
  pub name : Text
  pub latest : Text
  pub notes : Text
  pub metadata : Collection Text

-- release.Bundle, likewise.
pub record Bundle : Type 0 where
  pub pkg : Text
  pub version : Text
  pub notes : Text
  pub metadata : Collection Text

-- The zero values, of which nothing was decoded.
abbrev no_package : Package
no_package = record { name = []; latest = []; notes = []; metadata = [] }

abbrev no_bundle : Bundle
no_bundle = record { pkg = []; version = []; notes = []; metadata = [] }

-- releaseDocument, packageDocument and releaseData
pub data Doc : Type 0 where
  bundle_doc : Bundle → List Text → Text → Doc
  package_doc : Package → Doc
  data_doc : Text → Doc

abbrev pub Docs : Type 0
Docs = Collection Doc

-- What a call of Read answers: the bytes, and no error, io.EOF or another error.
pub data Read : Type 0 where
  more at_eof : Text → Read
  broken : Text → Failure → Read

-- makeChunkID
unfoldable pub make_chunk_id : Text → Text → ℕ → Text
make_chunk_id pkg ver i = pkg ++ (b':' ∷ (ver ++ (text ":chunk:" ++ itoa i)))

-- makeReleaseDocID
unfoldable pub make_release_doc_id : Text → Text → Text
make_release_doc_id pkg ver = text "release" ++ (b':' ∷ (pkg ++ (b':' ∷ ver)))

-- makePackageDocID
unfoldable pub make_package_doc_id : Text → Text
make_package_doc_id pkg = text "package" ++ (b':' ∷ pkg)

-- removeChunks
unfoldable pub remove_chunks : Docs → List Text → Docs
remove_chunks db [] = db
remove_chunks db (id ∷ ids) = remove_chunks (remove db id) ids

-- Update of Package.Latest, on a document of each kind.
abbrev pub with_latest : Text → Doc → Doc
with_latest ver (package_doc p) = package_doc (record p { latest = ver })
with_latest ver (bundle_doc b ids sum) = bundle_doc b ids sum
with_latest ver (data_doc s) = data_doc s

-- The end of Upload, once the release document lists its chunks.
abbrev pub point_latest : Bundle → Docs → Option Doc → Docs × Outcome (Unit {0})
point_latest b db (some d) = (put db (make_package_doc_id b.pkg) (with_latest b.version d), done tt)
point_latest b db none = (
  remove db (make_release_doc_id b.pkg b.version),
  failed (other_failure (text "package does not exist")),
)

-- The hash in hexadecimal, and the IDs whose Set fails.
module _ (hash : Text → Text) (faults : Text → Option Failure) where
  -- createDataChunks from the chunk i on, with the IDs and the bytes so far.
  unfoldable pub create_data_chunks :
      Bundle → ℕ → Docs → List Read → List Text → Text → Docs × Outcome (List Text × Text)
  create_data_chunks b i db [] ids sum = (db, done (ids, hash sum))
  create_data_chunks b i db (broken s e ∷ reads) ids sum = (remove_chunks db ids, failed e)
  create_data_chunks b i db (at_eof [] ∷ reads) ids sum = (db, done (ids, hash sum))
  create_data_chunks b i db (at_eof (c ∷ s) ∷ reads) ids sum =
      elim (faults (make_chunk_id b.pkg b.version i)) [
        | some e ↦ (remove_chunks db ids, failed e)
        | none ↦ (
          put db (make_chunk_id b.pkg b.version i) (data_doc (c ∷ s)),
          done (ids ++ make_chunk_id b.pkg b.version i ∷ [], hash (sum ++ (c ∷ s))),
        )
      ]
  create_data_chunks b i db (more [] ∷ reads) ids sum = (db, done (ids, hash sum))
  create_data_chunks b i db (more (c ∷ s) ∷ reads) ids sum =
      elim (faults (make_chunk_id b.pkg b.version i)) [
        | some e ↦ (remove_chunks db ids, failed e)
        | none ↦
            create_data_chunks b (suc i)
              (put db (make_chunk_id b.pkg b.version i) (data_doc (c ∷ s))) reads
              (ids ++ make_chunk_id b.pkg b.version i ∷ []) (sum ++ (c ∷ s))
      ]

  -- Upload, once the chunks are stored or were not.
  unfoldable pub finish_upload :
      Bundle → Docs × Outcome (List Text × Text) → Docs × Outcome (Unit {0})
  finish_upload b (db, failed e) = (remove db (make_release_doc_id b.pkg b.version), failed e)
  finish_upload b (db, crashed) = (db, crashed)
  finish_upload b (db, done (ids, checksum)) = elim (faults (make_release_doc_id b.pkg b.version)) [
    | some e ↦ (remove_chunks (remove db (make_release_doc_id b.pkg b.version)) ids, failed e)
    | none ↦
        point_latest b (put db (make_release_doc_id b.pkg b.version) (bundle_doc b ids checksum)) (
          find (put db (make_release_doc_id b.pkg b.version) (bundle_doc b ids checksum))
            (make_package_doc_id b.pkg))
  ]

  abbrev pub upload_new : Bundle → List Read → Docs → Option Doc → Docs × Outcome (Unit {0})
  upload_new b reads db (some old) = (db, failed already_exists)
  upload_new b reads db none = finish_upload b (
      create_data_chunks b 0 (put db (make_release_doc_id b.pkg b.version) (bundle_doc b [] []))
        reads [] [])

  -- Upload
  unfoldable pub upload : Bundle → List Read → Docs → Docs × Outcome (Unit {0})
  upload b reads db =
      if is_empty b.pkg || is_empty b.version
      then (db, failed (other_failure (text "invalid bundle")))
      else upload_new b reads db (find db (make_release_doc_id b.pkg b.version))

-- The bytes of a chunk. A document of another kind, which would leave the bytes of the chunk before it, is
-- taken as not decoded.
abbrev pub chunk_data : Option Doc → Outcome Text
chunk_data (some (data_doc s)) = done s
chunk_data (some (package_doc p)) = failed not_decoded
chunk_data (some (bundle_doc b ids sum)) = failed not_decoded
chunk_data none = failed not_found

-- The hash in hexadecimal.
module _ (hash : Text → Text) where
  -- writeChunks, on what is written so far, to a writer that takes every write.
  unfoldable pub write_chunks : Docs → List Text → Text → Text → Text × Outcome (Unit {0})
  write_chunks db [] checksum out =
      if text_eq (hash out) checksum
      then (out, done tt)
      else (out, failed (other_failure (text "data integrity check failed")))
  write_chunks db (id ∷ ids) checksum out = elim (chunk_data (find db id)) [
    | done s ↦ write_chunks db ids checksum (out ++ s)
    | failed e ↦ (out, failed e)
    | crashed ↦ (out, crashed)
  ]

  -- What is decoded of a release; data have none of its fields, and a package has one of another type.
  abbrev pub get_bundle : Docs → Bool → Option Doc → Text × Outcome Bundle
  get_bundle db discard none = ([], failed not_found)
  get_bundle db discard (some (package_doc p)) = ([], failed not_decoded)
  get_bundle db discard (some (data_doc s)) =
      if discard
      then ([], done no_bundle)
      else let (out, r) = write_chunks db [] [] [] in (out, r >>= λ x. done no_bundle)
  get_bundle db discard (some (bundle_doc b ids checksum)) =
      if discard
      then ([], done b)
      else let (out, r) = write_chunks db ids checksum [] in (out, r >>= λ x. done b)

  -- Get, with what it writes; `discard` is IsDiscard of the writer.
  unfoldable pub get : Text → Text → Bool → Docs → Text × Outcome Bundle
  get pkg ver discard db = get_bundle db discard (find db (make_release_doc_id pkg ver))

abbrev pub delete_found : Docs → Text → Option Doc → Outcome Docs
delete_found db id none = failed not_found
delete_found db id (some (package_doc p)) = failed not_decoded
delete_found db id (some (data_doc s)) = done (remove db id)
delete_found db id (some (bundle_doc b ids checksum)) = done (remove (remove_chunks db ids) id)

-- Delete
unfoldable pub delete : Text → Text → Docs → Outcome Docs
delete pkg ver db =
    delete_found db (make_release_doc_id pkg ver) (find db (make_release_doc_id pkg ver))

-- Create
unfoldable pub create : (Text → Option Failure) → Package → Docs → Outcome Docs
create faults p db =
    if is_empty p.name
    then failed (other_failure (text "invalid package"))
    else elim (faults (make_package_doc_id p.name)) [
      | some e ↦ failed e
      | none ↦ done (put db (make_package_doc_id p.name) (package_doc p))
    ]

abbrev pub package_of : Option Doc → Outcome Package
package_of none = failed not_found
package_of (some (package_doc p)) = done p
package_of (some (data_doc s)) = done no_package
package_of (some (bundle_doc b ids checksum)) = failed not_decoded

-- GetPackage
unfoldable pub get_package : Text → Docs → Outcome Package
get_package pkg db = package_of (find db (make_package_doc_id pkg))

-- DeletePackage
unfoldable pub delete_package : Text → Docs → Outcome Docs
delete_package pkg db = get_package pkg db >>= λ p. done (remove db (make_package_doc_id pkg))

abbrev pub add_metadata : Collection Text → Collection Text → Collection Text
add_metadata [] metadata = metadata
add_metadata ((k, v) ∷ updates) metadata = add_metadata updates (put metadata k v)

-- The updates of UpdatePackageMetadata, on a document of each kind.
abbrev pub with_metadata : Collection Text → Doc → Doc
with_metadata updates (package_doc p) =
    package_doc (record p { metadata = add_metadata updates p.metadata })
with_metadata updates (bundle_doc b ids sum) = bundle_doc b ids sum
with_metadata updates (data_doc s) = data_doc s

-- UpdatePackageMetadata
unfoldable pub update_package_metadata : Text → Collection Text → Docs → Outcome Docs
update_package_metadata pkg [] db = crashed
update_package_metadata pkg (u ∷ updates) db =
    if is_empty pkg
    then crashed
    else answer_or (failed (other_failure (text "package does not exist")))
        (λ d. done (put db (make_package_doc_id pkg) (with_metadata (u ∷ updates) d)))
        (find db (make_package_doc_id pkg))
