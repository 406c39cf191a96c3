-- ===== src/Release/Chunks.antt =====
-- The IDs of chunks, and what storing the data of a bundle leaves in the documents.
use blue.Prelude.{
  ℕ, suc, ◌≤◌, ◌==◌, ==_iff, Text, text, text_eq, text_eq→eq, text_eq_refl, itoa, itoa-injective,
  false, ◌≡◌, refl, sym, ap, ◌∙◌, List, [], ◌∷◌, ◌++◌, Option, some, Bool-cases, Option-cases, inl,
  inr, arith,
}
use mathlib.Core.Path.{subst}
use mathlib.Core.List.{append_assoc, append-nil}
use blue.Document.{find, put}
use blue.Document.Laws.{find-put}
use blue.Document.Outcome.{Outcome, done, Failure}
use blue.Release.{
  Bundle, Doc, data_doc, Docs, Read, more, at_eof, broken, make_chunk_id, create_data_chunks,
}

-- The bytes of the reads, up to the first that has none or ends.
abbrev pub contents : List Read → Text
contents [] = []
contents (broken s e ∷ reads) = []
contents (at_eof s ∷ reads) = s
contents (more [] ∷ reads) = []
contents (more (c ∷ s) ∷ reads) = (c ∷ s) ++ contents reads

-- The documents hold the bytes, in the chunks of the IDs, which are numbered from some number on.
abbrev pub HoldChunks : Bundle → ℕ → Docs → List Text → Text → Type 0
HoldChunks b i db [] bytes = bytes ≡ []
HoldChunks b i db (id ∷ ids) bytes =
    (s : Text) × (rest : Text) × (find db id ≡ some (data_doc s))
    × (bytes ≡ s ++ rest)
    × ((n : ℕ) × (i ≤ n) × (id ≡ make_chunk_id b.pkg b.version n))
    × HoldChunks b i db ids rest

-- A text is told apart from others by what stands after a common part.
pub text_eq-append : (s t u : Text) → text_eq (s ++ t) (s ++ u) ≡ text_eq t u
unfolding text_eq
text_eq-append [] t u = refl
text_eq-append (c ∷ s) t u = rw (text_eq-append s t u) (ground arith)

numbers_apart : (i j : ℕ) → (i == j) ≡ false → text_eq (itoa i) (itoa j) ≡ false
numbers_apart i j d = elim (Bool-cases (text_eq (itoa i) (itoa j))) [
  | inl e ↦
      let same : i ≡ j = itoa-injective i j (text_eq→eq (itoa i) (itoa j) e) in
      absurd (cc (d, (==_iff i j).1 same))
  | inr e ↦ e
]

pub chunks_apart :
    (b : Bundle) (i j : ℕ)
    → (i == j) ≡ false
    → text_eq (make_chunk_id b.pkg b.version i) (make_chunk_id b.pkg b.version j) ≡ false
unfolding make_chunk_id text_eq
chunks_apart b i j d =
    let tail : ℕ → Text = λ n. text ":chunk:" ++ itoa n in
    text_eq-append b.pkg (58 ∷ (b.version ++ tail i)) (58 ∷ (b.version ++ tail j))
    ∙ text_eq-append b.version (tail i) (tail j)
    ∙ numbers_apart i j d

-- Documents under other IDs do not change the chunks.
pub HoldChunks-cong :
    (b : Bundle) (i : ℕ) (db db' : Docs) (ids : List Text) (bytes : Text)
    → ((n : ℕ)
        → i ≤ n
        → find db' (make_chunk_id b.pkg b.version n) ≡ find db (make_chunk_id b.pkg b.version n))
    → HoldChunks b i db ids bytes
    → HoldChunks b i db' ids bytes
HoldChunks-cong b i db db' [] bytes same h = h
HoldChunks-cong b i db db' (id ∷ ids) bytes same (s, rest, f, e, (n, l, w), h) = (
  s,
  rest,
  ap (find db') w ∙ same n l ∙ sym (ap (find db) w) ∙ f,
  e,
  (n, l, w),
  HoldChunks-cong b i db db' ids rest same h,
)

-- What createDataChunks leaves where it succeeds: the IDs and the hash that it answers with, and the chunks.
pub record Stored (hash : Text → Text) (b : Bundle) (i : ℕ) (db db' : Docs) (bytes : Text)
    (ids : List Text) (sum : Text) (answer : List Text × Text) : Type 0 where
  pub new_ids : List Text
  pub answered : answer ≡ (ids ++ new_ids, hash (sum ++ bytes))
  pub chunks : HoldChunks b i db' new_ids bytes
  pub others :
      (id : Text)
      → ((n : ℕ) → i ≤ n → text_eq (make_chunk_id b.pkg b.version n) id ≡ false)
      → find db' id ≡ find db id

HoldChunks-lower :
    (b : Bundle) (i : ℕ) (db : Docs) (ids : List Text) (bytes : Text)
    → HoldChunks b (suc i) db ids bytes
    → HoldChunks b i db ids bytes
HoldChunks-lower b i db [] bytes h = h
HoldChunks-lower b i db (id ∷ ids) bytes (s, rest, f, e, (n, l, w), h) =
    (s, rest, f, e, (n, omega (arith, l), w), HoldChunks-lower b i db ids rest h)

find-put_self : (db : Docs) (id : Text) (d : Doc) → find (put db id d) id ≡ some d
find-put_self db id d = rw (find-put db id d id, text_eq_refl id) refl

done-injective : {A : Type 0} {x y : A} → done x ≡ done y → x ≡ y
done-injective e = cc e

module _ (hash : Text → Text) (faults : Text → Option Failure) (b : Bundle) where
  -- The result of a call that is known.
  Stored-result :
      (i : ℕ) (db : Docs) (bytes : Text) (ids : List Text) (sum : Text) (d d' : Docs)
      (a a' : List Text × Text)
      → Stored hash b i db d bytes ids sum a
      → ◌≡◌ {A = Docs × Outcome (List Text × Text)} (d, done a) (d', done a')
      → Stored hash b i db d' bytes ids sum a'
  Stored-result i db bytes ids sum d d' a a' h e =
      subst (λ x. Stored hash b i db x bytes ids sum a') (ap (λ r. r.0) e)
        (subst (λ x. Stored hash b i db d bytes ids sum x) (done-injective (ap (λ r. r.1) e)) h)

  -- Nothing more to store.
  Stored-none :
      (i : ℕ) (db : Docs) (ids : List Text) (sum : Text)
      → Stored hash b i db db [] ids sum (ids, hash sum)
  Stored-none i db ids sum = record {
    new_ids = [];
    answered = rw (append-nil ids, append-nil sum) refl;
    chunks = refl;
    others = λ id apart. refl;
  }

  -- One more chunk, and those that follow it.
  Stored-one :
      (i : ℕ) (db db' : Docs) (s bytes : Text) (ids : List Text) (sum : Text)
      (answer : List Text × Text)
      → Stored hash b
          (suc i)
          (put db (make_chunk_id b.pkg b.version i) (data_doc s))
          db'
          bytes
          (ids ++ make_chunk_id b.pkg b.version i ∷ [])
          (sum ++ s)
          answer
      → Stored hash b i db db' (s ++ bytes) ids sum answer
  Stored-one i db db' s bytes ids sum answer later =
      let cid : Text = make_chunk_id b.pkg b.version i in
      let here =
        later.others cid (λ n l. chunks_apart b n i (ground (arith, l)))
        ∙ find-put_self db cid (data_doc s) in
      record {
        new_ids = cid ∷ later.new_ids;
        answered =
            later.answered
            ∙ rw (append_assoc ids (cid ∷ []) later.new_ids, append_assoc sum s bytes) refl;
        chunks = (
          s,
          bytes,
          here,
          refl,
          (i, omega arith, refl),
          HoldChunks-lower b i db' later.new_ids bytes later.chunks,
        );
        others = λ id apart.
            later.others id (λ n l. apart n (omega (arith, l)))
            ∙ rw (find-put db cid (data_doc s) id, apart i (omega arith)) refl;
      }

  pub create_data_chunks-Stored :
      (reads : List Read) (i : ℕ) (db : Docs) (ids : List Text) (sum : Text) {db' : Docs}
      {answer : List Text × Text}
      → create_data_chunks hash faults b i db reads ids sum ≡ (db', done answer)
      → Stored hash b i db db' (contents reads) ids sum answer
  unfolding create_data_chunks
  create_data_chunks-Stored [] i db ids sum e =
      Stored-result i db [] ids sum db _ (ids, hash sum) _ (Stored-none i db ids sum) e
  create_data_chunks-Stored (broken s x ∷ reads) i db ids sum e = absurd (cc e)
  create_data_chunks-Stored (at_eof [] ∷ reads) i db ids sum e =
      Stored-result i db [] ids sum db _ (ids, hash sum) _ (Stored-none i db ids sum) e
  create_data_chunks-Stored (more [] ∷ reads) i db ids sum e =
      Stored-result i db [] ids sum db _ (ids, hash sum) _ (Stored-none i db ids sum) e
  create_data_chunks-Stored (at_eof (c ∷ s) ∷ reads) i db ids sum e =
      let cid : Text = make_chunk_id b.pkg b.version i in
      elim (Option-cases (faults cid)) [
        | inr (x, f) ↦ absurd (cc (rw (create_data_chunks, f) at e))
        | inl f ↦
            Stored-result i db (c ∷ s) ids sum (put db cid (data_doc (c ∷ s))) _
              (ids ++ cid ∷ [], hash (sum ++ (c ∷ s))) _
              (subst
                (λ x.
                  Stored hash b i db (put db cid (data_doc (c ∷ s))) x ids sum
                    (ids ++ cid ∷ [], hash (sum ++ (c ∷ s))))
                (append-nil (c ∷ s))
                (Stored-one i db (put db cid (data_doc (c ∷ s))) (c ∷ s) [] ids sum _ (
                  Stored-none (suc i) (put db cid (data_doc (c ∷ s))) (ids ++ cid ∷ [])
                    (sum ++ (c ∷ s)))))
              (rw (create_data_chunks, f) at e)
      ]
  create_data_chunks-Stored (more (c ∷ s) ∷ reads) i db ids sum e =
      let cid : Text = make_chunk_id b.pkg b.version i in
      elim (Option-cases (faults cid)) [
        | inr (x, f) ↦ absurd (cc (rw (create_data_chunks, f) at e))
        | inl f ↦ Stored-one i db _ (c ∷ s) (contents reads) ids sum _ (
            create_data_chunks-Stored reads (suc i) (put db cid (data_doc (c ∷ s)))
              (ids ++ cid ∷ []) (sum ++ (c ∷ s)) (rw (create_data_chunks, f) at e))
      ]
