-- ===== src/Release/Keeps.antt =====
-- The documents that Upload leaves as they are, on every outcome, and what it leaves of its own.
use blue.Prelude.{
  ℕ, suc, Text, text_eq, is_empty, false, ◌||◌, ◌≡◌, refl, ◌∙◌, List, [], ◌∷◌, ◌++◌, Option, none,
  All, Bool-cases, Option-cases, inl, inr,
}
use blue.Document.{find, put, remove}
use blue.Document.Outcome.{Outcome, done, failed, crashed, Failure}
use blue.Release.{
  Bundle, data_doc, bundle_doc, Docs, Read, more, at_eof, broken, make_chunk_id,
  make_release_doc_id, make_package_doc_id, create_data_chunks, with_latest, finish_upload, upload,
}
use blue.Release.Apart.{
  find-put_other, find-remove_other, find-remove_same, NoneIs, find-remove_chunks_other,
  find-remove_chunks_absent, Foreign,
}

-- The IDs are of chunks of the release.
abbrev pub AreChunks : Text → Text → List Text → Type 0
AreChunks p v = All (λ id. (n : ℕ) × (id ≡ make_chunk_id p v n))

pub AreChunks-NoneIs :
    (p v id : Text) (ids : List Text)
    → ((n : ℕ) → text_eq (make_chunk_id p v n) id ≡ false)
    → AreChunks p v ids
    → NoneIs id ids
AreChunks-NoneIs p v id [] apart h = tt
AreChunks-NoneIs p v id (c ∷ ids) apart ((n, e), h) =
    (rw e (apart n), AreChunks-NoneIs p v id ids apart h)

AreChunks-append :
    (p v : Text) (ids : List Text) (n : ℕ)
    → AreChunks p v ids
    → AreChunks p v (ids ++ make_chunk_id p v n ∷ [])
AreChunks-append p v [] n h = ((n, refl), tt)
AreChunks-append p v (c ∷ ids) n (g, h) = (g, AreChunks-append p v ids n h)

-- What the storing of chunks answers: an error, or IDs of chunks.
abbrev ChunksAnswer : Text → Text → Outcome (List Text × Text) → Type 0
ChunksAnswer p v (done (ids, sum)) = AreChunks p v ids
ChunksAnswer p v (failed e) = Unit
ChunksAnswer p v crashed = ⊥

-- Documents that differ only in chunks of the release.
abbrev OnlyChunks : Text → Text → Docs → Docs → Type 0
OnlyChunks p v db db' =
    (id : Text) → ((n : ℕ) → text_eq (make_chunk_id p v n) id ≡ false) → find db' id ≡ find db id

-- Documents that differ only in those of the release and in its package.
abbrev pub OnlyRelease : Text → Text → Docs → Docs → Type 0
OnlyRelease p v db db' = (id : Text) → Foreign p v id → find db' id ≡ find db id

-- What Upload leaves of its release: what was there, nothing, or the bundle, where it succeeds.
pub data Left (p v : Text) (db : Docs) : Docs × Outcome (Unit {0}) → Type 0 where
  unchanged : {r : Outcome (Unit {0})} → Left p v db (db, r)
  gone :
      {db' : Docs} {r : Outcome (Unit {0})}
      → find db' (make_release_doc_id p v) ≡ none
      → Left p v db (db', r)
  finished : {db' : Docs} → Left p v db (db', done tt)

module _ (hash : Text → Text) (faults : Text → Option Failure) (b : Bundle) where
  create_data_chunks-Only :
      (reads : List Read) (i : ℕ) (db : Docs) (ids : List Text) (sum : Text)
      → AreChunks b.pkg b.version ids
      → let r = create_data_chunks hash faults b i db reads ids sum in
        OnlyChunks b.pkg b.version db r.0 × ChunksAnswer b.pkg b.version r.1
  unfolding create_data_chunks
  create_data_chunks-Only [] i db ids sum h = (λ id apart. refl, h)
  create_data_chunks-Only (broken s x ∷ reads) i db ids sum h = (
    λ id apart.
        find-remove_chunks_other db ids id (AreChunks-NoneIs b.pkg b.version id ids apart h),
    tt,
  )
  create_data_chunks-Only (at_eof [] ∷ reads) i db ids sum h = (λ id apart. refl, h)
  create_data_chunks-Only (more [] ∷ reads) i db ids sum h = (λ id apart. refl, h)
  create_data_chunks-Only (at_eof (c ∷ s) ∷ reads) i db ids sum h =
      let cid : Text = make_chunk_id b.pkg b.version i in
      elim (Option-cases (faults cid)) [
        | inr (x, f) ↦
            rw (create_data_chunks, f)
              (
                λ id apart.
                    find-remove_chunks_other db ids id
                      (AreChunks-NoneIs b.pkg b.version id ids apart h),
                tt,
              )
        | inl f ↦
            rw (create_data_chunks, f)
              (
                λ id apart. find-put_other db cid (data_doc (c ∷ s)) id (apart i),
                AreChunks-append b.pkg b.version ids i h,
              )
      ]
  create_data_chunks-Only (more (c ∷ s) ∷ reads) i db ids sum h =
      let cid : Text = make_chunk_id b.pkg b.version i in
      elim (Option-cases (faults cid)) [
        | inr (x, f) ↦
            rw (create_data_chunks, f)
              (
                λ id apart.
                    find-remove_chunks_other db ids id
                      (AreChunks-NoneIs b.pkg b.version id ids apart h),
                tt,
              )
        | inl f ↦
            let later =
              create_data_chunks-Only reads (suc i) (put db cid (data_doc (c ∷ s)))
                (ids ++ cid ∷ []) (sum ++ (c ∷ s)) (AreChunks-append b.pkg b.version ids i h) in
            rw (create_data_chunks, f)
              (
                λ id apart.
                    later.0 id apart ∙ find-put_other db cid (data_doc (c ∷ s)) id (apart i),
                later.1,
              )
      ]

  finish_upload-Only :
      (db0 db : Docs) (r : Outcome (List Text × Text))
      → OnlyRelease b.pkg b.version db0 db
      → ChunksAnswer b.pkg b.version r
      → OnlyRelease b.pkg b.version db0 (finish_upload hash faults b (db, r)).0
        × Left b.pkg b.version db0 (finish_upload hash faults b (db, r))
  unfolding finish_upload
  finish_upload-Only db0 db (failed e) only h =
      let rid : Text = make_release_doc_id b.pkg b.version in
      (
        λ id (nr, np, nc). find-remove_other db rid id nr ∙ only id (nr, np, nc),
        gone (find-remove_same db rid),
      )
  finish_upload-Only db0 db crashed only h = elim h [ ]
  finish_upload-Only db0 db (done (ids, checksum)) only h =
      let rid : Text = make_release_doc_id b.pkg b.version in
      let pid : Text = make_package_doc_id b.pkg in
      let db1 : Docs = put db rid (bundle_doc b ids checksum) in
      let kept1 : OnlyRelease b.pkg b.version db0 db1 = λ id (nr, np, nc).
        find-put_other db rid (bundle_doc b ids checksum) id nr ∙ only id (nr, np, nc) in
      elim (Option-cases (faults rid)) [
        | inr (x, f) ↦
            rw (finish_upload, f)
              (
                λ id (nr, np, nc).
                    find-remove_chunks_other (remove db rid) ids id
                      (AreChunks-NoneIs b.pkg b.version id ids nc h)
                    ∙ find-remove_other db rid id nr
                    ∙ only id (nr, np, nc),
                gone (find-remove_chunks_absent (remove db rid) ids rid (find-remove_same db rid)),
              )
        | inl f ↦ elim (Option-cases (find db1 pid)) [
          | inl g ↦
              rw (finish_upload, f, g)
                (
                  λ id (nr, np, nc). find-remove_other db1 rid id nr ∙ kept1 id (nr, np, nc),
                  gone (find-remove_same db1 rid),
                )
          | inr (d, g) ↦
              rw (finish_upload, f, g)
                (
                  λ id (nr, np, nc).
                      find-put_other db1 pid (with_latest b.version d) id np
                      ∙ kept1 id (nr, np, nc),
                  finished,
                )
        ]
      ]

  pub upload-Only :
      (reads : List Read) (db : Docs)
      → OnlyRelease b.pkg b.version db (upload hash faults b reads db).0
        × Left b.pkg b.version db (upload hash faults b reads db)
  unfolding upload
  upload-Only reads db =
      let rid : Text = make_release_doc_id b.pkg b.version in
      elim (Bool-cases (is_empty b.pkg || is_empty b.version)) [
        | inl g ↦ rw (upload, g) (λ id foreign. refl, unchanged)
        | inr g ↦ elim (Option-cases (find db rid)) [
          | inr (old, f) ↦ rw (upload, g, f) (λ id foreign. refl, unchanged)
          | inl f ↦
              let c = create_data_chunks-Only reads 0 (put db rid (bundle_doc b [] [])) [] [] tt in
              rw (upload, g, f)
                (finish_upload-Only db _ _
                  (λ id (nr, np, nc). c.0 id nc ∙ find-put_other db rid (bundle_doc b [] []) id nr)
                  c.1)
        ]
      ]
