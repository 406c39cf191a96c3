-- ===== src/Document/Laws.antt =====
-- The laws of a collection of documents.
use blue.Prelude.{
  Text, text_eq, text_eq→eq, text_eq_refl, text_eq_sym, ◌≡◌, refl, sym, ap, ◌∙◌, true, false, [],
  ◌∷◌, none, some, if◌then◌else◌, Bool-cases, inl, inr, arith,
}
use blue.Document.{Collection, find, put, remove}

-- The two tests of an ID against equal IDs agree.
pub text_eq_of_eq : (a b c : Text) → text_eq a b ≡ true → text_eq a c ≡ text_eq b c
text_eq_of_eq a b c h = ap (λ (t : Text). text_eq t c) (text_eq→eq a b h)

pub differs : (a b c : Text) → text_eq a b ≡ false → text_eq a c ≡ true → text_eq b c ≡ false
differs a b c h o = ap (text_eq b) (sym (text_eq→eq a c o)) ∙ text_eq_sym b a ∙ h

module _ {ℓ} {D : Type ℓ} where
  pub find-put :
      (db : Collection D) (id : Text) (d : D) (other : Text)
      → find (put db id d) other ≡ (if text_eq id other then some d else find db other)
  unfolding find put
  find-put [] id d other = refl
  find-put ((k, e) ∷ db) id d other = elim (Bool-cases (text_eq k id)) [
    | inl h ↦ rw (h, text_eq_of_eq k id other h) (ground arith)
    | inr h ↦ rw h (elim (Bool-cases (text_eq k other)) [
      | inl o ↦ rw (o, differs k id other h o) refl
      | inr o ↦ rw (o, find-put db id d other) refl
    ])
  ]

  pub find-remove :
      (db : Collection D) (id other : Text)
      → find (remove db id) other ≡ (if text_eq id other then none else find db other)
  unfolding find remove
  find-remove [] id other = ground arith
  find-remove ((k, e) ∷ db) id other = elim (Bool-cases (text_eq k id)) [
    | inl h ↦ rw (h, find-remove db id other, text_eq_of_eq k id other h) (ground arith)
    | inr h ↦ rw h (elim (Bool-cases (text_eq k other)) [
      | inl o ↦ rw (o, differs k id other h o) refl
      | inr o ↦ rw (o, find-remove db id other) refl
    ])
  ]

  pub find-cons_self : (db : Collection D) (k : Text) (d : D) → find ((k, d) ∷ db) k ≡ some d
  unfolding find
  find-cons_self db k d = rw (text_eq_refl k) refl

  -- A new document hides none.
  pub find-cons_keeps :
      (db : Collection D) (k id : Text) (d : D) {e : D}
      → find db k ≡ none
      → find db id ≡ some e
      → find ((k, d) ∷ db) id ≡ some e
  unfolding find
  find-cons_keeps db k id d free h = elim (Bool-cases (text_eq k id)) [
    | inl same ↦ absurd (cc (free, h, ap (find db) (text_eq→eq k id same)))
    | inr other ↦ rw other h
  ]
