-- ===== src/Document/InMemory/Updated.antt =====
-- The document that Update keeps: what UpdateProto of document/encoding.go makes is what it is to be.
use blue.Prelude.{
  text_eq_refl, ℕ, Text, text_eq, ◌≡◌, refl, Bool, true, false, List, [], ◌∷◌, Bool-cases,
  Option-cases, inl, inr, if◌then◌else◌,
}
use blue.Document.{select}
use blue.Document.Fields.{
  Fields, Value, FieldValue, null, words, flag, number, time, nested, end, field, lookup_value,
  put_value, precond_field, path_of, updated_at_field, check_preconditions, update_field,
  apply_updates, update_proto,
}
use blue.Document.Outcome.{Outcome, done, failed, crashed, ◌>>=◌, precondition_failed}
use blue.Document.InMemory.Promised.{change_of, compared, and_then, value_at, as_expected, updated}

precond_field-value_at :
    (doc : Fields) (k : Text) (ks : List Text) (v : Value)
    → precond_field doc (k ∷ ks) v ≡ compared (value_at doc (k ∷ ks)) v
unfolding precond_field
precond_field-value_at doc k [] v = refl
precond_field-value_at doc k (j ∷ ks) v = elim (Option-cases (lookup_value doc k)) [
  | inl e ↦ rw (e, precond_field, value_at) refl
  | inr (nested n, e) ↦ rw (e, precond_field, value_at) (precond_field-value_at n j ks v)
  | inr (null, e) ↦ rw (e, precond_field, value_at) refl
  | inr (words s, e) ↦ rw (e, precond_field, value_at) refl
  | inr (flag b, e) ↦ rw (e, precond_field, value_at) refl
  | inr (number z, e) ↦ rw (e, precond_field, value_at) refl
  | inr (time t, e) ↦ rw (e, precond_field, value_at) refl
]

precond_field-path_of :
    (lower_case : Bool) (doc : Fields) (k : Text) (ks : List Text) (v : Value)
    → precond_field doc (path_of lower_case (k ∷ ks)) v
      ≡ compared (value_at doc (path_of lower_case (k ∷ ks))) v
precond_field-path_of true doc k ks v = precond_field-value_at doc _ _ v
precond_field-path_of false doc k ks v = precond_field-value_at doc k ks v

abbrev verdict : Outcome Bool → Outcome (Unit {0})
verdict r = r >>= λ same. if same then done tt else failed precondition_failed

one_verdict :
    (here rest : Outcome Bool)
    → (here >>= λ same. if same then verdict rest else failed precondition_failed)
      ≡ verdict (and_then here rest)
one_verdict (done true) rest = refl
one_verdict (done false) rest = refl
one_verdict (failed e) rest = refl
one_verdict crashed rest = refl

check_preconditions-as_expected :
    (lower_case : Bool) (doc : Fields) (conds : List FieldValue)
    → check_preconditions lower_case doc conds ≡ verdict (as_expected lower_case doc conds)
unfolding check_preconditions
check_preconditions-as_expected lower_case doc [] = refl
check_preconditions-as_expected lower_case doc (([], v) ∷ conds) = refl
check_preconditions-as_expected lower_case doc ((k ∷ ks, v) ∷ conds) =
    rw
      (
        precond_field-path_of lower_case doc k ks v,
        check_preconditions-as_expected lower_case doc conds,
      )
      (one_verdict (compared (value_at doc (path_of lower_case (k ∷ ks))) v)
        (as_expected lower_case doc conds))

apply_updates-updated :
    (lower_case : Bool) (updates : List FieldValue) (doc : Fields)
    → apply_updates lower_case doc updates ≡ updated lower_case doc updates
unfolding apply_updates select
apply_updates-updated lower_case [] doc = refl
apply_updates-updated lower_case (([], v) ∷ updates) doc = refl
apply_updates-updated lower_case ((k ∷ ks, v) ∷ updates) doc =
    elim (Bool-cases (text_eq k (updated_at_field lower_case))) [
      | inl e ↦ rw e (apply_updates-updated lower_case updates doc)
      | inr e ↦ rw e (
          apply_updates-updated lower_case updates
            (update_field doc (path_of lower_case (k ∷ ks)) v))
    ]

after_verdict :
    (r : Outcome Bool) (x : Outcome Fields) (f : Fields → Outcome Fields)
    → (verdict r >>= λ _. x >>= f)
      ≡ ((r >>= λ same. if same then x else failed precondition_failed) >>= f)
after_verdict (done true) x f = refl
after_verdict (done false) x f = refl
after_verdict (failed e) x f = refl
after_verdict crashed x f = refl

-- UpdateProto is the change, and then the time of it.
pub update_proto-change_of :
    (lower_case : Bool) (now : ℕ) (doc : Fields) (updates conds : List FieldValue)
    → update_proto lower_case now doc updates conds ≡ (
        change_of lower_case doc updates conds >>= λ m.
        done (put_value m (updated_at_field lower_case) (time now)))
unfolding update_proto
update_proto-change_of lower_case now doc updates conds =
    rw
      (
        check_preconditions-as_expected lower_case doc conds,
        apply_updates-updated lower_case updates doc,
      )
      (after_verdict (as_expected lower_case doc conds) (updated lower_case doc updates)
        (λ m. done (put_value m (updated_at_field lower_case) (time now))))

-- The time is written twice, the second time by Encode.
pub put_value-again :
    (m : Fields) (k : Text) (v : Value) → put_value (put_value m k v) k v ≡ put_value m k v
unfolding put_value
put_value-again end k v = rw (text_eq_refl k) refl
put_value-again (field j w m) k v = elim (Bool-cases (text_eq j k)) [
  | inl e ↦ rw (e, put_value, e) refl
  | inr e ↦ rw (e, put_value, e, put_value-again m k v) refl
]

pub bind_assoc :
    {A B C : Type 0} (r : Outcome A) (f : A → Outcome B) (g : B → Outcome C)
    → (r >>= f >>= g) ≡ (r >>= λ x. f x >>= g)
bind_assoc (done x) f g = refl
bind_assoc (failed e) f g = refl
bind_assoc crashed f g = refl
