-- ===== src/Release/Intact.antt =====
-- Every release that the documents list can be downloaded, whatever calls were made and failed before.
use blue.Prelude.{
  ℕ, Text, text_eq→eq, true, false, ◌≡◌, refl, sym, ◌∙◌, List, [], ◌∷◌, Option, none, some, ◌⊎◌,
  inl, inr, Bool-cases, arith,
}
use blue.Document.{find, remove}
use blue.Document.Outcome.{Outcome, done, failed, Failure, not_found}
use blue.Release.{
  Bundle, bundle_doc, Docs, Read, make_chunk_id, make_release_doc_id, remove_chunks, upload, get,
  delete,
}
use blue.Release.Chunks.{contents, HoldChunks, HoldChunks-cong}
use blue.Release.Apart.{
  is_plain, same_release, find-remove_other, find-remove_same, find-remove_chunks_other,
  package-release, package-chunk, release-Foreign, chunk-Foreign,
}
use blue.Release.Keeps.{
  AreChunks, AreChunks-NoneIs, OnlyRelease, Left, unchanged, gone, finished, upload-Only,
}
use blue.Release.RoundTrip.{Uploaded, upload-Uploaded, get-Uploaded}
use blue.Release.Calls.{
  Call, upload_call, create_call, metadata_call, delete_call, delete_package_call, documents, run,
  ArePlain, Uploads, OnlyPackage, create-Only, update_package_metadata-Only, delete_package-Only,
}

HoldChunks-AreChunks :
    (b : Bundle) (i : ℕ) (db : Docs) (ids : List Text) (bytes : Text)
    → HoldChunks b i db ids bytes
    → AreChunks b.pkg b.version ids
HoldChunks-AreChunks b i db [] bytes h = tt
HoldChunks-AreChunks b i db (id ∷ ids) bytes (s, rest, f, e, (n, l, w), h) =
    ((n, w), HoldChunks-AreChunks b i db ids rest h)

-- The releases are those of some bundles and bytes, such as those of the calls that were made.
module _ (hash : Text → Text) (From : Bundle → Text → Type 0) where
  -- The documents do not list the release, or hold it whole.
  abbrev pub IntactAt : Text → Text → Docs → Type 0
  IntactAt p v db =
      (find db (make_release_doc_id p v) ≡ none)
      ⊎ ((b : Bundle) × (bytes : Text) × (b.pkg ≡ p)
          × (b.version ≡ v)
          × From b bytes
          × Uploaded hash b bytes db)

  -- Every release of a plain package is.
  abbrev pub IsIntact : Docs → Type 0
  IsIntact db = (p v : Text) → is_plain p ≡ true → IntactAt p v db

  -- The release's documents are as before.
  abbrev Same : Text → Text → Docs → Docs → Type 0
  Same p v db db' =
      (find db' (make_release_doc_id p v) ≡ find db (make_release_doc_id p v))
      × ((n : ℕ) → find db' (make_chunk_id p v n) ≡ find db (make_chunk_id p v n))

  IntactAt-cong :
      (p v : Text) (db db' : Docs) → Same p v db db' → IntactAt p v db → IntactAt p v db'
  IntactAt-cong p v db db' (s, cs) (inl h) = inl (s ∙ h)
  IntactAt-cong p v db db' (s, cs) (inr (b, bytes, e, f, o, u)) =
      let s' : find db' (make_release_doc_id b.pkg b.version)
          ≡ find db (make_release_doc_id b.pkg b.version) =
        rw (e, f) s in
      let cs' : (n : ℕ)
          → find db' (make_chunk_id b.pkg b.version n) ≡ find db (make_chunk_id b.pkg b.version n) =
        rw (e, f) cs in
      inr (
        b,
        bytes,
        e,
        f,
        o,
        record {
          ids = u.ids;
          checksum = u.checksum;
          listed = s' ∙ u.listed;
          held = HoldChunks-cong b 0 db db' u.ids bytes (λ n l. cs' n) u.held;
          hashed = u.hashed;
        },
      )

  OnlyPackage-IsIntact :
      (p : Text) (db db' : Docs) → OnlyPackage p db db' → IsIntact db → IsIntact db'
  OnlyPackage-IsIntact p db db' only h q w g =
      IntactAt-cong q w db db'
        (only _ (package-release p q w), λ n. only _ (package-chunk p q w n g)) (h q w g)

  OnlyRelease-IsIntact :
      (p v : Text) (db db' : Docs)
      → is_plain p ≡ true
      → OnlyRelease p v db db'
      → IntactAt p v db'
      → IsIntact db
      → IsIntact db'
  OnlyRelease-IsIntact p v db db' f only own h q w g = elim (Bool-cases (same_release p v q w)) [
    | inl e ↦
        let same_p : p ≡ q = text_eq→eq p q (ground (arith, e)) in
        let same_v : v ≡ w = text_eq→eq v w (ground (arith, e)) in rw (sym same_p, sym same_v) own
    | inr d ↦
        IntactAt-cong q w db db'
          (only _ (release-Foreign p v q w f g d), λ n. only _ (chunk-Foreign p v q w n f g d))
          (h q w g)
  ]

  upload-IntactAt :
      (faults : Text → Option Failure) (b : Bundle) (reads : List Read) (db : Docs)
      {r : Docs × Outcome (Unit {0})}
      → is_plain b.pkg ≡ true
      → From b (contents reads)
      → upload hash faults b reads db ≡ r
      → Left b.pkg b.version db r
      → IntactAt b.pkg b.version db
      → IntactAt b.pkg b.version r.0
  upload-IntactAt faults b reads db f o e unchanged h = h
  upload-IntactAt faults b reads db f o e (gone g) h = inl g
  upload-IntactAt faults b reads db f o e finished h =
      inr (b, contents reads, refl, refl, o, upload-Uploaded hash faults b reads db f e)

  upload-IsIntact :
      (faults : Text → Option Failure) (b : Bundle) (reads : List Read) (db : Docs)
      → is_plain b.pkg ≡ true
      → From b (contents reads)
      → IsIntact db
      → IsIntact (upload hash faults b reads db).0
  upload-IsIntact faults b reads db f o h =
      let (only, left) = upload-Only hash faults b reads db in
      OnlyRelease-IsIntact b.pkg b.version db _ f only
        (upload-IntactAt faults b reads db f o refl left (h b.pkg b.version f)) h

  delete-IsIntact :
      (p v : Text) (db : Docs)
      → is_plain p ≡ true
      → IsIntact db
      → IsIntact (documents db (delete p v db))
  unfolding delete
  delete-IsIntact p v db f h = elim (h p v f) [
    | inl g ↦ rw g h
    | inr (b, bytes, e, w, o, u) ↦
        let rid : Text = make_release_doc_id p v in
        let listed : find db rid ≡ some (bundle_doc b u.ids u.checksum) =
          rw (sym e, sym w) u.listed in
        let chunks : AreChunks p v u.ids =
          rw (sym e, sym w) (HoldChunks-AreChunks b 0 db u.ids bytes u.held) in
        let db1 : Docs = remove_chunks db u.ids in
        rw listed (
          OnlyRelease-IsIntact p v db (remove db1 rid) f
            (λ id (nr, np, nc).
              find-remove_other db1 rid id nr
              ∙ find-remove_chunks_other db u.ids id (AreChunks-NoneIs p v id u.ids nc chunks))
            (inl (find-remove_same db1 rid)) h)
  ]

  run-IsIntact :
      (cs : List Call) (db : Docs)
      → ((b : Bundle) (bytes : Text) → Uploads cs b bytes → From b bytes)
      → ArePlain cs
      → IsIntact db
      → IsIntact (run hash cs db)
  run-IsIntact [] db o f h = h
  run-IsIntact (upload_call faults b reads ∷ cs) db o (g, f) h =
      run-IsIntact cs _ (λ c bytes m. o c bytes (inr m)) f
        (upload-IsIntact faults b reads db g (o b (contents reads) (inl (refl, refl))) h)
  run-IsIntact (create_call faults p ∷ cs) db o f h =
      run-IsIntact cs _ o f (OnlyPackage-IsIntact p.name db _ (create-Only faults p db) h)
  run-IsIntact (metadata_call pkg updates ∷ cs) db o f h =
      run-IsIntact cs _ o f
        (OnlyPackage-IsIntact pkg db _ (update_package_metadata-Only pkg updates db) h)
  run-IsIntact (delete_call pkg ver ∷ cs) db o (g, f) h =
      run-IsIntact cs _ o f (delete-IsIntact pkg ver db g h)
  run-IsIntact (delete_package_call pkg ∷ cs) db o f h =
      run-IsIntact cs _ o f (OnlyPackage-IsIntact pkg db _ (delete_package-Only pkg db) h)

-- After any sequence of calls on an empty store, each Upload with its own reads and failing Sets, Get of a
-- release answers that it is not found, or it answers with a bundle of that package and version, for which
-- one of the calls was an Upload, and writes the data that this Upload read: never is data missing, mixed
-- with that of another Upload or different from its hash. The calls and Get name packages whose name has no
-- colon and is neither "release" nor "package".
pub get-run :
    (hash : Text → Text) (cs : List Call) (p v : Text)
    → ArePlain cs
    → is_plain p ≡ true
    → (get hash p v false (run hash cs []) ≡ ([], failed not_found))
      ⊎ ((b : Bundle) × (bytes : Text) × (b.pkg ≡ p)
          × (b.version ≡ v)
          × Uploads cs b bytes
          × (get hash p v false (run hash cs []) ≡ (bytes, done b)))
unfolding find get
get-run hash cs p v f g =
    let db : Docs = run hash cs [] in
    elim (run-IsIntact hash (Uploads cs) cs [] (λ b bytes o. o) f (λ q w h. inl refl) p v g) [
      | inl e ↦ inl (rw e refl)
      | inr (b, bytes, e, w, o, u) ↦
          inr (b, bytes, e, w, o, rw (sym e, sym w) (get-Uploaded hash b bytes db u))
    ]
