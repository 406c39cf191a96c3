-- ===== src/Document/InMemory/Kept.antt =====
-- The value that Create and Set keep: what document/encoding.go makes of it is what it is to be.
use blue.Prelude.{
  ℕ, Text, text, text_eq, ◌≡◌, refl, sym, Bool, true, false, not, ◌&&◌, [], ◌∷◌, Option, none, some,
  Bool-cases, inl, inr, if◌then◌else◌, ◌∙◌, ap,
}
use blue.Document.Fields.{Fields, Value, null, words, flag, number, time, nested}
use blue.Document.Service.{
  Given, nothing, scalar, map_of, typed_map, struct_of, pointer, Member, Members, plain, structure,
  set_time, set_time_field, set_both, before_rest, struct_or_panic, deref_create_value,
  stamp_created,
}
use blue.Document.InMemory.Promised.{
  below, is_document, is_time_name, can_be_timed, timed_value, timed, kept_value,
}

pub deref_create_value-below :
    (g : Given) → deref_create_value g ≡ (if is_document (below g) then some (below g) else none)
deref_create_value-below nothing = refl
deref_create_value-below scalar = refl
deref_create_value-below (map_of m) = refl
deref_create_value-below (typed_map m) = refl
deref_create_value-below (struct_of m) = refl
deref_create_value-below (pointer g) = deref_create_value-below g

set_time-plain : (now : ℕ) (v : Value) → set_time now (plain v) ≡ some (plain (timed_value now v))
set_time-plain now null = refl
set_time-plain now (words s) = refl
set_time-plain now (flag b) = refl
set_time-plain now (number n) = refl
set_time-plain now (time t) = refl
set_time-plain now (nested m) = refl

timed_value-again : (now : ℕ) (v : Value) → timed_value now (timed_value now v) ≡ timed_value now v
timed_value-again now null = refl
timed_value-again now (words s) = refl
timed_value-again now (flag b) = refl
timed_value-again now (number n) = refl
timed_value-again now (time t) = refl
timed_value-again now (nested m) = refl

-- The passes over the fields of both names, and the one pass that is to be made.
abbrev Passes : ℕ → Option Members → Bool → Members → Type 0
Passes now first can ms = set_both now first ≡ (if can then some ms else none)

before_none : (k : Text) (x : Option Member) → before_rest k x none ≡ none
before_none k none = refl
before_none k (some f) = refl

-- The second pass, over a field that the first one has left.
second_pass :
    (now : ℕ) (k : Text) (f : Member) (first : Option Members) (can : Bool) (ms : Members)
    → Passes now first can ms
    → set_both now (before_rest k (some f) first)
      ≡ before_rest k
          (if text_eq k (text "UpdatedAt") then set_time now f else some f)
          (if can then some ms else none)
unfolding set_time_field
second_pass now k f none can ms h = sym (
    ap (before_rest k (if text_eq k (text "UpdatedAt") then set_time now f else some f)) (sym h)
    ∙ before_none k _)
second_pass now k f (some rest) can ms h =
    ap (before_rest k (if text_eq k (text "UpdatedAt") then set_time now f else some f)) h

before_if :
    (k : Text) (f : Member) (can : Bool) (ms : Members)
    → before_rest k (some f) (if can then some ms else none)
      ≡ (if can then some ((k, f) ∷ ms) else none)
before_if k f true ms = refl
before_if k f false ms = refl

plain-Passes :
    (now : ℕ) (k : Text) (v : Value) (first : Option Members) (can : Bool) (ms : Members)
    → Passes now first can ms
    → Passes now
        (before_rest k
          (if text_eq k (text "CreatedAt") then set_time now (plain v) else some (plain v))
          first)
        can
        ((k, plain (if is_time_name k then timed_value now v else v)) ∷ ms)
plain-Passes now k v first can ms h =
    rw (set_time-plain now v) (elim (Bool-cases (text_eq k (text "CreatedAt"))) [
      | inl c ↦ rw c (
          second_pass now k (plain (timed_value now v)) first can ms h
          ∙ rw (set_time-plain now (timed_value now v), timed_value-again now v)
              (elim (Bool-cases (text_eq k (text "UpdatedAt"))) [
                | inl u ↦ rw u (before_if k (plain (timed_value now v)) can ms)
                | inr u ↦ rw u (before_if k (plain (timed_value now v)) can ms)
              ]))
      | inr c ↦ rw c (
          second_pass now k (plain v) first can ms h
          ∙ rw (set_time-plain now v) (elim (Bool-cases (text_eq k (text "UpdatedAt"))) [
            | inl u ↦ rw u (before_if k (plain (timed_value now v)) can ms)
            | inr u ↦ rw u (before_if k (plain v) can ms)
          ]))
    ])

structure-Passes :
    (now : ℕ) (k : Text) (m : Fields) (first : Option Members) (can : Bool) (ms : Members)
    → Passes now first can ms
    → Passes now
        (before_rest k (if text_eq k (text "CreatedAt") then none else some (structure m)) first)
        (not (is_time_name k) && can)
        ((k, structure m) ∷ ms)
structure-Passes now k m first can ms h = elim (Bool-cases (text_eq k (text "CreatedAt"))) [
  | inl c ↦ rw c refl
  | inr c ↦ rw c (
      second_pass now k (structure m) first can ms h
      ∙ elim (Bool-cases (text_eq k (text "UpdatedAt"))) [
        | inl u ↦ rw u refl
        | inr u ↦ rw u (before_if k (structure m) can ms)
      ])
]

set_both-timed :
    (now : ℕ) (ms : Members)
    → set_both now (set_time_field ms (text "CreatedAt") now)
      ≡ (if can_be_timed ms then some (timed now ms) else none)
unfolding set_time_field
set_both-timed now [] = refl
set_both-timed now ((k, plain v) ∷ ms) =
    plain-Passes now k v (set_time_field ms (text "CreatedAt") now) (can_be_timed ms) (timed now ms)
      (set_both-timed now ms)
set_both-timed now ((k, structure m) ∷ ms) =
    structure-Passes now k m (set_time_field ms (text "CreatedAt") now) (can_be_timed ms)
      (timed now ms) (set_both-timed now ms)

pub stamp_created-kept_value :
    (now : ℕ) (g : Given) → is_document g ≡ true → stamp_created now g ≡ kept_value now g
stamp_created-kept_value now (map_of m) d = refl
stamp_created-kept_value now (typed_map m) d = refl
stamp_created-kept_value now (struct_of ms) d =
    ap struct_or_panic (set_both-timed now ms)
    ∙ elim (Bool-cases (can_be_timed ms)) [ inl e ↦ rw e refl | inr e ↦ rw e refl ]
stamp_created-kept_value now nothing d = absurd (cc d)
stamp_created-kept_value now scalar d = absurd (cc d)
stamp_created-kept_value now (pointer g) d = absurd (cc d)
