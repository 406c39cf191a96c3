-- ===== src/Document/Fields.antt =====
-- Documents as maps of fields, and what document/encoding.go does to them: preconditions, updates and
-- filters. A value of type any is one of Value; a map is the list of its entries. Times are nanoseconds.
pub mod Paths
use blue.Prelude.{
  ℕ, ◌==◌, ℤ, eqb_ℤ, Text, text, text_eq, to_lower, Bool, true, false, not, ◌&&◌, List, [], ◌∷◌,
  map, Option, none, some, if◌then◌else◌,
}
use blue.Document.Outcome.{Outcome, done, failed, crashed, ◌>>=◌, precondition_failed}

mutual
  pub data Value : Type 0 where
    null : Value
    words : Text → Value
    flag : Bool → Value
    number : ℤ → Value
    time : ℕ → Value
    nested : Fields → Value

  pub data Fields : Type 0 where
    end : Fields
    field : Text → Value → Fields → Fields

-- m[k], and whether it is there
unfoldable pub lookup_value : Fields → Text → Option Value
lookup_value end k = none
lookup_value (field j v m) k = if text_eq j k then some v else lookup_value m k

-- m[k] = v
unfoldable pub put_value : Fields → Text → Value → Fields
put_value end k v = field k v end
put_value (field j w m) k v =
    let rest = put_value m k v in if text_eq j k then field j v m else field j w rest

-- m[k], where a missing entry is nil
abbrev pub value_or_null : Option Value → Value
value_or_null none = null
value_or_null (some v) = v

-- `==` on values of type any, which panics on two maps. Numbers are of one Go type, and a slice, on which it
-- panics too, is none of the values.
abbrev pub equals : Value → Value → Outcome Bool
equals null null = done true
equals (words s) (words t) = done (text_eq s t)
equals (flag a) (flag b) = done (if a then b else not b)
equals (number a) (number b) = done (eqb_ℤ a b)
equals (time a) (time b) = done (a == b)
equals (nested m) (nested n) = crashed
equals _ _ = done false

-- Precondition and Update: a FieldPath and a Value.
abbrev pub FieldValue : Type 0
FieldValue = List Text × Value

-- precondField; UpdateProto rules out the empty path.
unfoldable pub precond_field : Fields → List Text → Value → Outcome Bool
precond_field proto [] v = crashed
precond_field proto (k ∷ []) v = equals (value_or_null (lookup_value proto k)) v
precond_field proto (k ∷ j ∷ ks) v = elim (lookup_value proto k) [
  | some (nested m) ↦ precond_field m (j ∷ ks) v
  | _ ↦ done false
]

-- updateField
unfoldable pub update_field : Fields → List Text → Value → Fields
update_field proto [] v = proto
update_field proto (k ∷ []) v = put_value proto k v
update_field proto (k ∷ j ∷ ks) v = elim (lookup_value proto k) [
  | some (nested m) ↦ put_value proto k (nested (update_field m (j ∷ ks) v))
  | _ ↦ proto
]

abbrev pub updated_at_field : Bool → Text
updated_at_field lower_case = if lower_case then text "updatedat" else text "UpdatedAt"

-- A path of ASCII, whose letters strings.ToLower lowers one by one.
abbrev pub path_of : Bool → List Text → List Text
path_of lower_case path = if lower_case then map to_lower path else path

-- The loop of UpdateProto over the preconditions.
unfoldable pub check_preconditions : Bool → Fields → List FieldValue → Outcome (Unit {0})
check_preconditions lower_case proto [] = done tt
check_preconditions lower_case proto (([], v) ∷ conds) = crashed
check_preconditions lower_case proto ((k ∷ ks, v) ∷ conds) =
    precond_field proto (path_of lower_case (k ∷ ks)) v >>= λ holds.
    if holds then check_preconditions lower_case proto conds else failed precondition_failed

-- The loop of UpdateProto over the updates.
unfoldable pub apply_updates : Bool → Fields → List FieldValue → Outcome Fields
apply_updates lower_case proto [] = done proto
apply_updates lower_case proto (([], v) ∷ updates) = crashed
apply_updates lower_case proto ((k ∷ ks, v) ∷ updates) =
    apply_updates lower_case
      (if text_eq k (updated_at_field lower_case)
        then proto
        else update_field proto (path_of lower_case (k ∷ ks)) v)
      updates

-- UpdateProto, at the present time.
unfoldable pub update_proto : Bool → ℕ → Fields → List FieldValue → List FieldValue → Outcome Fields
update_proto lower_case now proto updates conds =
    check_preconditions lower_case proto conds >>= λ _.
    apply_updates lower_case proto updates >>= λ m.
    done (put_value m (updated_at_field lower_case) (time now))

pub data Op : Type 0 where
  equal greater_than greater_than_equal less_than less_than_equal : Op
  other_op : Text → Op

pub record Filter : Type 0 where
  pub path : List Text
  pub value : Value
  pub op : Op

-- The comparisons of the package assert that doMatchFilter uses.
pub record Comparisons : Type 0 where
  pub equal_values : Value → Value → Bool
  pub greater : Value → Value → Bool
  pub less : Value → Value → Bool
  pub greater_or_equal : Value → Value → Bool
  pub less_or_equal : Value → Value → Bool

-- doMatchFilter
unfoldable pub match_value : Comparisons → Value → Op → Value → Outcome Bool
match_value c v equal w = done (c.equal_values v w)
match_value c v greater_than w = done (c.greater v w)
match_value c v less_than w = done (c.less v w)
match_value c v greater_than_equal w =
    done (if c.equal_values v w then true else c.greater_or_equal v w)
match_value c v less_than_equal w = done (if c.equal_values v w then true else c.less_or_equal v w)
match_value c v (other_op o) w = crashed

-- MatchFilter, on the path, the operator and the value of a filter.
unfoldable pub match_filter : Comparisons → Fields → List Text → Op → Value → Outcome Bool
match_filter c proto [] op v = crashed
match_filter c proto (k ∷ []) op v = match_value c (value_or_null (lookup_value proto k)) op v
match_filter c proto (k ∷ j ∷ ks) op v = elim (lookup_value proto k) [
  | none ↦ done false
  | some w ↦ elim w [ null ↦ done false | nested m ↦ match_filter c m (j ∷ ks) op v | _ ↦ crashed ]
]

-- MatchesAllFilters
unfoldable pub matches_all : Comparisons → Bool → Fields → List Filter → Outcome Bool
matches_all c lower_case proto [] = done true
matches_all c lower_case proto (f ∷ filters) =
    match_filter c proto (path_of lower_case f.path) f.op f.value >>= λ holds.
    if holds then matches_all c lower_case proto filters else done false
