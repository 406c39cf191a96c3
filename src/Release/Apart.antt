-- ===== src/Release/Apart.antt =====
-- Which IDs of packages, releases and chunks differ, and the documents that the steps of Upload and Delete
-- leave as they are.
use blue.Prelude.{
  ◌==◌, ==_iff, has_byte-itoa, if◌then◌else◌, ℕ, suc, ◌+◌, Text, text, text_eq, text_eq→eq,
  text_eq_refl, text_eq_sym, has_byte, joined-separate, itoa, Bool, true, false, not, ◌&&◌, ◌≡◌,
  refl, sym, ap, ◌∙◌, List, [], ◌∷◌, ◌++◌, none, some, All, Bool-cases, inl, inr, arith,
}
use blue.Document.{find, put, remove}
use blue.Document.Laws.{find-put, find-remove}
use blue.Release.{Doc, Docs, make_chunk_id, make_release_doc_id, make_package_doc_id, remove_chunks}
use blue.Release.Chunks.{text_eq-append}

-- The name of a package whose IDs can be told apart from others: it has no colon, and is not one of the
-- words that the IDs of documents begin with.
abbrev pub is_plain : Text → Bool
is_plain pkg =
    not (has_byte b':' pkg)
    && not (text_eq (text "release") pkg)
    && not (text_eq (text "package") pkg)

-- The same package and version.
abbrev pub same_release : Text → Text → Text → Text → Bool
same_release p v q w = text_eq p q && text_eq v w

pub find-put_other :
    (db : Docs) (id : Text) (d : Doc) (other : Text)
    → text_eq id other ≡ false
    → find (put db id d) other ≡ find db other
find-put_other db id d other h = rw (find-put db id d other, h) refl

pub find-put_same : (db : Docs) (id : Text) (d : Doc) → find (put db id d) id ≡ some d
find-put_same db id d = rw (find-put db id d id, text_eq_refl id) refl

pub find-remove_other :
    (db : Docs) (id other : Text)
    → text_eq id other ≡ false
    → find (remove db id) other ≡ find db other
find-remove_other db id other h = rw (find-remove db id other, h) refl

pub find-remove_same : (db : Docs) (id : Text) → find (remove db id) id ≡ none
find-remove_same db id = rw (find-remove db id id, text_eq_refl id) refl

-- None of the texts is the one.
abbrev pub NoneIs : Text → List Text → Type 0
NoneIs id = All (λ c. text_eq c id ≡ false)

pub find-remove_chunks_other :
    (db : Docs) (ids : List Text) (other : Text)
    → NoneIs other ids
    → find (remove_chunks db ids) other ≡ find db other
unfolding remove_chunks
find-remove_chunks_other db [] other h = refl
find-remove_chunks_other db (id ∷ ids) other (h, hs) =
    find-remove_chunks_other (remove db id) ids other hs ∙ find-remove_other db id other h

pub find-remove_chunks_absent :
    (db : Docs) (ids : List Text) (id : Text)
    → find db id ≡ none
    → find (remove_chunks db ids) id ≡ none
unfolding remove_chunks
find-remove_chunks_absent db [] id h = h
find-remove_chunks_absent db (c ∷ ids) id h =
    find-remove_chunks_absent (remove db c) ids id (elim (Bool-cases (text_eq c id)) [
      | inl s ↦ rw (find-remove db c id, s) refl
      | inr s ↦ rw (find-remove db c id, s) h
    ])

-- The IDs of two releases, and of a release, a package and a chunk.
pub package-release :
    (q p v : Text) → text_eq (make_package_doc_id q) (make_release_doc_id p v) ≡ false
unfolding make_package_doc_id make_release_doc_id text_eq
package-release q p v = refl

colon : (s t : Text) → text_eq (58 ∷ s) (58 ∷ t) ≡ text_eq s t
unfolding text_eq
colon s t = refl

-- Two parts of which one differs, joined by a colon.
joined-parts :
    (p v q w s t : Text)
    → has_byte b':' p ≡ false
    → has_byte b':' q ≡ false
    → same_release p v q w ≡ false
    → (text_eq v w ≡ false → text_eq s t ≡ false)
    → text_eq (p ++ (58 ∷ s)) (q ++ (58 ∷ t)) ≡ false
joined-parts p v q w s t f g d tails = elim (Bool-cases (text_eq p q)) [
  | inl e ↦
      let same : p ≡ q = text_eq→eq p q e in
      let differ : text_eq v w ≡ false = rw e at d in
      rw (sym same) (text_eq-append p (58 ∷ s) (58 ∷ t) ∙ colon s t ∙ tails differ)
  | inr e ↦ joined-separate 58 p q s t f g e
]

-- The colons of a text.
abbrev colons : Text → ℕ
colons [] = 0
colons (c ∷ s) = let rest = colons s in if c == 58 then suc rest else rest

colons-append : (s t : Text) → colons (s ++ t) ≡ colons s + colons t
colons-append [] t = ground arith
colons-append (c ∷ s) t = rw (colons-append s t) (ground arith)

colons-none : (s : Text) → has_byte b':' s ≡ false → colons s ≡ 0
colons-none [] h = refl
colons-none (c ∷ s) h = rw (colons-none s (ground (arith, h))) (ground (arith, h))

colons_differ : (s t : Text) → (colons s == colons t) ≡ false → text_eq s t ≡ false
colons_differ s t d = elim (Bool-cases (text_eq s t)) [
  | inl e ↦ absurd (cc (d, (==_iff (colons s) (colons t)).1 (ap colons (text_eq→eq s t e))))
  | inr e ↦ e
]

longer :
    (d : ℕ) (w s t : Text) → colons s ≡ colons t → text_eq (58 ∷ s) (d ∷ (w ++ (58 ∷ t))) ≡ false
unfolding text_eq
longer d w s t e = elim (Bool-cases (58 == d)) [
  | inl h ↦
      let more_colons = colons-append w (58 ∷ t) in
      rw h (colons_differ s (w ++ (58 ∷ t)) (ground (arith, e, more_colons)))
  | inr h ↦ rw h refl
]

-- Texts that differ, each before a colon and as many colons after it.
suffixed-separate :
    (v w s t : Text)
    → colons s ≡ colons t
    → text_eq v w ≡ false
    → text_eq (v ++ (58 ∷ s)) (w ++ (58 ∷ t)) ≡ false
unfolding text_eq
suffixed-separate [] [] s t e d = absurd (cc d)
suffixed-separate [] (c ∷ w) s t e d = longer c w s t e
suffixed-separate (c ∷ v) [] s t e d =
    text_eq_sym (c ∷ (v ++ (58 ∷ s))) (58 ∷ t) ∙ longer c v t s (sym e)
suffixed-separate (c ∷ v) (x ∷ w) s t e d = elim (Bool-cases (c == x)) [
  | inl h ↦ rw h (suffixed-separate v w s t e (rw h at d))
  | inr h ↦ rw h refl
]

colons-chunk : (i : ℕ) → colons (text "chunk:" ++ itoa i) ≡ 1
colons-chunk i = ap suc (colons-none (itoa i) (has_byte-itoa 58 i refl))

pub release-release :
    (p v q w : Text)
    → is_plain p ≡ true
    → is_plain q ≡ true
    → same_release p v q w ≡ false
    → text_eq (make_release_doc_id p v) (make_release_doc_id q w) ≡ false
unfolding make_release_doc_id text_eq
release-release p v q w f g d =
    joined-parts p v q w v w (ground (arith, f)) (ground (arith, g)) d (λ e. e)

pub chunk-chunk :
    (p v q w : Text) (i j : ℕ)
    → is_plain p ≡ true
    → is_plain q ≡ true
    → same_release p v q w ≡ false
    → text_eq (make_chunk_id p v i) (make_chunk_id q w j) ≡ false
unfolding make_chunk_id
chunk-chunk p v q w i j f g d = joined-parts p v q w _ _ (ground (arith, f)) (ground (arith, g)) d (
    suffixed-separate v w (text "chunk:" ++ itoa i) (text "chunk:" ++ itoa j)
      (colons-chunk i ∙ sym (colons-chunk j)))

pub release-chunk :
    (p v q w : Text) (i : ℕ)
    → is_plain q ≡ true
    → text_eq (make_release_doc_id p v) (make_chunk_id q w i) ≡ false
unfolding make_release_doc_id make_chunk_id
release-chunk p v q w i g =
    joined-separate 58 (text "release") q _ _ refl (ground (arith, g)) (ground (arith, g))

pub package-chunk :
    (p q w : Text) (i : ℕ)
    → is_plain q ≡ true
    → text_eq (make_package_doc_id p) (make_chunk_id q w i) ≡ false
unfolding make_package_doc_id make_chunk_id
package-chunk p q w i g =
    joined-separate 58 (text "package") q _ _ refl (ground (arith, g)) (ground (arith, g))

-- An ID of no document of the release, and not that of its package.
abbrev pub Foreign : Text → Text → Text → Type 0
Foreign p v id =
    (text_eq (make_release_doc_id p v) id ≡ false)
    × (text_eq (make_package_doc_id p) id ≡ false)
    × ((n : ℕ) → text_eq (make_chunk_id p v n) id ≡ false)

pub release-Foreign :
    (p v q w : Text)
    → is_plain p ≡ true
    → is_plain q ≡ true
    → same_release p v q w ≡ false
    → Foreign p v (make_release_doc_id q w)
release-Foreign p v q w f g d = (
  release-release p v q w f g d,
  package-release p q w,
  λ n. text_eq_sym (make_chunk_id p v n) (make_release_doc_id q w) ∙ release-chunk q w p v n f,
)

pub chunk-Foreign :
    (p v q w : Text) (i : ℕ)
    → is_plain p ≡ true
    → is_plain q ≡ true
    → same_release p v q w ≡ false
    → Foreign p v (make_chunk_id q w i)
chunk-Foreign p v q w i f g d =
    (release-chunk p v q w i g, package-chunk p q w i g, λ n. chunk-chunk p v q w n i f g d)
