-- ===== src/Release/Examples.antt =====
-- The theorems on releases, at concrete calls.
use blue.Prelude.{
  ◌⊎◌, some, if◌then◌else◌, Text, text, text_eq, itoa, decimal, false, ◌≡◌, refl, List, [], ◌∷◌,
  Option, none,
}
use blue.Document.{find, put, remove}
use blue.Document.Outcome.{done, failed, not_found, other_failure, Failure}
use blue.Release.{
  remove_chunks, create, delete, Package, Bundle, package_doc, bundle_doc, data_doc, Docs, Read,
  more, at_eof, make_chunk_id, make_release_doc_id, make_package_doc_id, create_data_chunks,
  finish_upload, upload, write_chunks, get,
}
use blue.Release.RoundTrip.{get-upload}
use blue.Release.Calls.{Call, upload_call, create_call, delete_call, run, Uploads}
use blue.Release.Intact.{get-run}

abbrev no_faults : Text → Option Failure
no_faults id = none

abbrev itself : Text → Text
itself s = s

abbrev blue_package : Package
blue_package = record { name = text "blue"; latest = text "0.9"; notes = []; metadata = [] }

abbrev first_release : Bundle
first_release = record { pkg = text "blue"; version = text "1.0"; notes = []; metadata = [] }

abbrev two_reads : List Read
two_reads = more (text "ab") ∷ more (text "c") ∷ at_eof [] ∷ []

abbrev before_upload : Docs
before_upload = (text "package:blue", package_doc blue_package) ∷ []

abbrev after_upload : Docs
after_upload =
    (text "package:blue", package_doc (record blue_package { latest = text "1.0" }))
    ∷ (
      text "release:blue:1.0",
      bundle_doc first_release (text "blue:1.0:chunk:0" ∷ text "blue:1.0:chunk:1" ∷ [])
          (text "abc"),
    )
    ∷ (text "blue:1.0:chunk:0", data_doc (text "ab"))
    ∷ (text "blue:1.0:chunk:1", data_doc (text "c"))
    ∷ []

two_chunks : upload itself no_faults first_release two_reads before_upload ≡ (after_upload, done tt)
unfolding text_eq itoa decimal find put remove make_chunk_id make_release_doc_id make_package_doc_id
    create_data_chunks finish_upload upload
two_chunks = refl

get-upload_example :
    get itself (text "blue") (text "1.0") false after_upload ≡ (text "abc", done first_release)
unfolding text_eq
get-upload_example =
    get-upload itself no_faults first_release two_reads before_upload refl two_chunks

-- The Set of the second chunk fails.
abbrev second_chunk_fails : Text → Option Failure
second_chunk_fails id =
    if text_eq id (text "blue:1.0:chunk:1")
    then some (other_failure (text "no connection"))
    else none

abbrev older_release : Bundle
older_release = record first_release { version = text "0.9" }

-- An Upload that fails, the same again, and another release that is deleted.
abbrev five_calls : List Call
five_calls =
    create_call no_faults blue_package
    ∷ upload_call second_chunk_fails first_release two_reads
    ∷ upload_call no_faults first_release two_reads
    ∷ upload_call no_faults older_release (more (text "x") ∷ two_reads)
    ∷ delete_call (text "blue") (text "0.9")
    ∷ []

downloads :
    get itself (text "blue") (text "1.0") false (run itself five_calls [])
    ≡ (text "abc", done first_release)
unfolding text_eq itoa decimal find put remove remove_chunks make_chunk_id make_release_doc_id
    make_package_doc_id create_data_chunks finish_upload upload create delete write_chunks get
downloads = refl

deleted :
    get itself (text "blue") (text "0.9") false (run itself five_calls []) ≡ ([], failed not_found)
unfolding text_eq itoa decimal find put remove remove_chunks make_chunk_id make_release_doc_id
    make_package_doc_id create_data_chunks finish_upload upload create delete get
deleted = refl

get-run_example :
    (get itself (text "blue") (text "1.0") false (run itself five_calls [])
      ≡ ([], failed not_found))
    ⊎ ((b : Bundle) × (bytes : Text) × (b.pkg ≡ text "blue")
        × (b.version ≡ text "1.0")
        × Uploads five_calls b bytes
        × (get itself (text "blue") (text "1.0") false (run itself five_calls [])
            ≡ (bytes, done b)))
unfolding text_eq
get-run_example =
    get-run itself five_calls (text "blue") (text "1.0") (refl, (refl, (refl, (refl, tt)))) refl

-- A chunk of a package named release has the ID of another package's release.
same_id :
    make_chunk_id (text "release") (text "blue") 0
    ≡ make_release_doc_id (text "blue") (text "chunk:0")
unfolding make_chunk_id make_release_doc_id itoa decimal
same_id = refl
