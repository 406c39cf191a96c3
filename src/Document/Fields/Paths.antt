-- ===== src/Document/Fields/Paths.antt =====
-- What an update of document/encoding.go does to the fields of a document: it answers a precondition on the
-- path that it writes, and leaves the fields under other keys.
use blue.Prelude.{
  ℕ, Text, text_eq, text_eq_refl, to_lower, ◌≡◌, refl, sym, ap, ◌∙◌, Bool, true, false, ◌||◌, List,
  [], ◌∷◌, ◌++◌, some, if◌then◌else◌, Bool-cases, Option-cases, inl, inr, arith,
}
use blue.Document.Laws.{text_eq_of_eq, differs}
use blue.Document.Outcome.{Outcome, done, failed, ◌>>=◌, >>=-eq-done, precondition_failed}
use blue.Document.Fields.{
  Value, Fields, null, words, flag, number, time, nested, end, field, lookup_value, put_value,
  equals, FieldValue, precond_field, update_field, updated_at_field, path_of, check_preconditions,
  apply_updates, update_proto,
}

pub lookup_value-put_value :
    (m : Fields) (k : Text) (v : Value) (j : Text)
    → lookup_value (put_value m k v) j ≡ (if text_eq k j then some v else lookup_value m j)
unfolding lookup_value put_value
lookup_value-put_value end k v j = refl
lookup_value-put_value (field i w m) k v j = elim (Bool-cases (text_eq i k)) [
  | inl h ↦ rw (h, text_eq_of_eq i k j h) (ground arith)
  | inr h ↦ rw h (elim (Bool-cases (text_eq i j)) [
    | inl o ↦ rw (o, differs i k j h o) refl
    | inr o ↦ rw (o, lookup_value-put_value m k v j) refl
  ])
]

pub lookup_value-written :
    (m : Fields) (k : Text) (v : Value) → lookup_value (put_value m k v) k ≡ some v
lookup_value-written m k v = rw (lookup_value-put_value m k v k, text_eq_refl k) refl

pub lookup_value-other :
    (m : Fields) (k : Text) (v : Value) (j : Text)
    → text_eq k j ≡ false
    → lookup_value (put_value m k v) j ≡ lookup_value m j
lookup_value-other m k v j h = rw (lookup_value-put_value m k v j, h) refl

-- Once a path holds a value that differs from the one expected, the precondition on it does not hold.
pub precond_field-update_field :
    (k : Text) (ks : List Text) (m : Fields) (new old : Value)
    → equals new old ≡ done false
    → precond_field (update_field m (k ∷ ks) new) (k ∷ ks) old ≡ done false
unfolding precond_field update_field
precond_field-update_field k [] m new old h = rw (lookup_value-written m k new) h
precond_field-update_field k (j ∷ ks) m new old h = elim (Option-cases (lookup_value m k)) [
  | inl e ↦ rw (update_field, e, precond_field, e) refl
  | inr (nested n, e) ↦
      rw
        (
          update_field,
          e,
          precond_field,
          lookup_value-written m k (nested (update_field n (j ∷ ks) new)),
        )
        (precond_field-update_field j ks n new old h)
  | inr (null, e) ↦ rw (update_field, e, precond_field, e) refl
  | inr (words s, e) ↦ rw (update_field, e, precond_field, e) refl
  | inr (flag b, e) ↦ rw (update_field, e, precond_field, e) refl
  | inr (number z, e) ↦ rw (update_field, e, precond_field, e) refl
  | inr (time t, e) ↦ rw (update_field, e, precond_field, e) refl
]

-- The other keys of the map that a path starts in keep their values.
pub lookup_value-update_field :
    (k : Text) (ks : List Text) (m : Fields) (v : Value) (j : Text)
    → text_eq k j ≡ false
    → lookup_value (update_field m (k ∷ ks) v) j ≡ lookup_value m j
unfolding update_field
lookup_value-update_field k [] m v j h = lookup_value-other m k v j h
lookup_value-update_field k (i ∷ ks) m v j h = elim (Option-cases (lookup_value m k)) [
  | inl e ↦ rw (update_field, e) refl
  | inr (nested n, e) ↦
      rw (update_field, e) (lookup_value-other m k (nested (update_field n (i ∷ ks) v)) j h)
  | inr (null, e) ↦ rw (update_field, e) refl
  | inr (words s, e) ↦ rw (update_field, e) refl
  | inr (flag b, e) ↦ rw (update_field, e) refl
  | inr (number z, e) ↦ rw (update_field, e) refl
  | inr (time t, e) ↦ rw (update_field, e) refl
]

abbrev pub key_of : Bool → Text → Text
key_of lower_case k = if lower_case then to_lower k else k

path_of-cons :
    (lower_case : Bool) (k : Text) (ks : List Text)
    → path_of lower_case (k ∷ ks) ≡ key_of lower_case k ∷ path_of lower_case ks
path_of-cons true k ks = refl
path_of-cons false k ks = refl

-- Whether some update writes at or below the key.
abbrev pub touches : Bool → List FieldValue → Text → Bool
touches lower_case [] j = false
touches lower_case (([], v) ∷ updates) j = touches lower_case updates j
touches lower_case ((k ∷ ks, v) ∷ updates) j =
    text_eq (key_of lower_case k) j || touches lower_case updates j

-- What one round of the loop over the updates makes of the document.
module _ (lower_case : Bool) (m : Fields) (k : Text) (ks : List Text) (v : Value) where
  abbrev pub after_one : Fields
  after_one =
      if text_eq k (updated_at_field lower_case)
      then m
      else update_field m (path_of lower_case (k ∷ ks)) v

  after_one-written :
      text_eq k (updated_at_field lower_case) ≡ false
      → after_one ≡ update_field m (key_of lower_case k ∷ path_of lower_case ks) v
  after_one-written s = rw (s, path_of-cons lower_case k ks) refl

  lookup_value-after_one :
      (j : Text)
      → text_eq (key_of lower_case k) j ≡ false
      → lookup_value after_one j ≡ lookup_value m j
  lookup_value-after_one j t = elim (Bool-cases (text_eq k (updated_at_field lower_case))) [
    | inl s ↦ rw s refl
    | inr s ↦
        ap (λ n. lookup_value n j) (after_one-written s)
        ∙ lookup_value-update_field (key_of lower_case k) (path_of lower_case ks) m v j t
  ]

lookup_value-apply_updates :
    (lower_case : Bool) (updates : List FieldValue) (m : Fields) (j : Text) {m' : Fields}
    → touches lower_case updates j ≡ false
    → apply_updates lower_case m updates ≡ done m'
    → lookup_value m' j ≡ lookup_value m j
unfolding apply_updates
lookup_value-apply_updates lower_case [] m j t h = ap (λ n. lookup_value n j) (sym (cc h))
lookup_value-apply_updates lower_case (([], v) ∷ updates) m j t h = absurd (cc h)
lookup_value-apply_updates lower_case ((k ∷ ks, v) ∷ updates) m j t h =
    lookup_value-apply_updates lower_case updates (after_one lower_case m k ks v) j
      (ground (arith, t)) h
    ∙ lookup_value-after_one lower_case m k ks v j (ground (arith, t))

apply_updates-last :
    (lower_case : Bool) (updates : List FieldValue) (m : Fields) (k : Text) (ks : List Text)
    (v : Value) {m' : Fields}
    → text_eq k (updated_at_field lower_case) ≡ false
    → apply_updates lower_case m (updates ++ (k ∷ ks, v) ∷ []) ≡ done m'
    → (n : Fields) × (m' ≡ update_field n (key_of lower_case k ∷ path_of lower_case ks) v)
unfolding apply_updates
apply_updates-last lower_case [] m k ks v s h =
    (m, sym (cc h) ∙ after_one-written lower_case m k ks v s)
apply_updates-last lower_case (([], w) ∷ updates) m k ks v s h = absurd (cc h)
apply_updates-last lower_case ((i ∷ is, w) ∷ updates) m k ks v s h =
    apply_updates-last lower_case updates (after_one lower_case m i is w) k ks v s h

-- A precondition reads the entry that its path starts with, and no other.
precond_field-cong :
    (m n : Fields) (k : Text) (ks : List Text) (v : Value)
    → lookup_value m k ≡ lookup_value n k
    → precond_field m (k ∷ ks) v ≡ precond_field n (k ∷ ks) v
unfolding precond_field
precond_field-cong m n k [] v e = rw e refl
precond_field-cong m n k (j ∷ ks) v e = rw (precond_field, e) refl

-- What a successful update did.
module _ (lower_case : Bool) (now : ℕ) (m : Fields) (updates conds : List FieldValue) where
  update_proto-parts :
      {m' : Fields}
      → update_proto lower_case now m updates conds ≡ done m'
      → (n : Fields) × (apply_updates lower_case m updates ≡ done n)
        × (m' ≡ put_value n (updated_at_field lower_case) (time now))
  unfolding update_proto
  update_proto-parts {m'} h =
      let finish : Fields → Outcome Fields =
        λ n. done (put_value n (updated_at_field lower_case) (time now)) in
      let rest : Unit {0} → Outcome Fields = λ _. apply_updates lower_case m updates >>= finish in
      let (x, hc, hx) = >>=-eq-done (check_preconditions lower_case m conds) rest h in
      let (y, hy, hz) = >>=-eq-done (apply_updates lower_case m updates) finish hx in
      (y, hy, sym (cc hz))

-- An update that succeeds leaves every entry of the document that none of its paths starts with, but for
-- the time of the update.
pub update_proto-keeps :
    (lower_case : Bool) (now : ℕ) (m : Fields) (updates conds : List FieldValue) (j : Text)
    {m' : Fields}
    → touches lower_case updates j ≡ false
    → text_eq (updated_at_field lower_case) j ≡ false
    → update_proto lower_case now m updates conds ≡ done m'
    → lookup_value m' j ≡ lookup_value m j
update_proto-keeps lower_case now m updates conds j t u h =
    let (n, ha, e) = update_proto-parts lower_case now m updates conds h in
    ap (λ d. lookup_value d j) e
    ∙ lookup_value-other n (updated_at_field lower_case) (time now) j u
    ∙ lookup_value-apply_updates lower_case updates m j t ha

-- Optimistic locking: of two updates that expect the same value at a path, the second to run fails with
-- the error for preconditions, whatever else it asks for, if the first succeeded and its last update
-- wrote a different value to that path. The path is not the one of the time of the update, and the two
-- values can be compared.
pub update_proto-refuses_stale :
    (lower_case : Bool) (now later : ℕ) (m : Fields) (first second conds conds' : List FieldValue)
    (k : Text) (ks : List Text) (expected new : Value) {m' : Fields}
    → text_eq k (updated_at_field lower_case) ≡ false
    → text_eq (updated_at_field lower_case) (key_of lower_case k) ≡ false
    → equals new expected ≡ done false
    → update_proto lower_case now m (first ++ (k ∷ ks, new) ∷ []) ((k ∷ ks, expected) ∷ conds)
      ≡ done m'
    → update_proto lower_case later m' second ((k ∷ ks, expected) ∷ conds')
      ≡ failed precondition_failed
unfolding update_proto check_preconditions
update_proto-refuses_stale lower_case now later m first second conds conds' k ks expected new s u d
      h =
    let lowered : List Text = path_of lower_case ks in
    let (n, ha, e) =
      update_proto-parts lower_case now m (first ++ (k ∷ ks, new) ∷ []) ((k ∷ ks, expected) ∷ conds)
        h in
    let (n', e') = apply_updates-last lower_case first m k ks new s ha in
    let fails =
      ap (λ a. precond_field a (key_of lower_case k ∷ lowered) expected) e
      ∙ precond_field-cong _ n (key_of lower_case k) lowered expected
          (lookup_value-other n (updated_at_field lower_case) (time now) (key_of lower_case k) u)
      ∙ ap (λ a. precond_field a (key_of lower_case k ∷ lowered) expected) e'
      ∙ precond_field-update_field (key_of lower_case k) lowered n' new expected d in
    rw (path_of-cons lower_case k ks, fails) refl
