-- ===== src/Document/InMemory/Promised.antt =====
-- What the calls of document/inmemory.go are to make of single documents: the value that is kept, the
-- conditions and writes of an update, and the filters that a document passes.
use blue.Prelude.{
  text, text_eq, not, ◌&&◌, ◌||◌, Option, none, ℕ, Text, if◌then◌else◌, Bool, true, false, List, [],
  ◌∷◌, some,
}
use blue.Document.{select}
use blue.Document.Outcome.{Outcome, done, failed, crashed, ◌>>=◌, precondition_failed}
use blue.Document.Fields.{
  Fields, FieldValue, Comparisons, Filter, null, Op, equal, greater_than, greater_than_equal,
  less_than, less_than_equal, other_op, path_of, equals, value_or_null, lookup_value, nested,
  update_field, Value, time, updated_at_field,
}
use blue.Document.Service.{
  Given, nothing, map_of, typed_map, struct_of, pointer, Members, plain, structure,
}

-- What a value is given through its pointers, and whether that is a document.
abbrev pub below : Given → Given
below (pointer g) = below g
below g = g

abbrev pub is_document : Given → Bool
is_document (map_of m) = true
is_document (typed_map m) = true
is_document (struct_of m) = true
is_document _ = false

abbrev pub is_nil : Given → Bool
is_nil nothing = true
is_nil _ = false

-- A struct keeps the time of its creation in its fields CreatedAt and UpdatedAt, which are times if they are of
-- struct kind.
abbrev pub is_time_name : Text → Bool
is_time_name k = text_eq k (text "CreatedAt") || text_eq k (text "UpdatedAt")

abbrev pub can_be_timed : Members → Bool
can_be_timed [] = true
can_be_timed ((k, structure m) ∷ ms) = not (is_time_name k) && can_be_timed ms
can_be_timed ((k, plain v) ∷ ms) = can_be_timed ms

abbrev pub timed_value : ℕ → Value → Value
timed_value now (time t) = time now
timed_value now v = v

abbrev pub timed : ℕ → Members → Members
timed now [] = []
timed now ((k, structure m) ∷ ms) = (k, structure m) ∷ timed now ms
timed now ((k, plain v) ∷ ms) =
    (k, plain (if is_time_name k then timed_value now v else v)) ∷ timed now ms

-- The value that is kept: a map[string]any as it is, and a struct with its times.
abbrev pub kept_value : ℕ → Given → Outcome Given
kept_value now (struct_of ms) = if can_be_timed ms then done (struct_of (timed now ms)) else crashed
kept_value now (map_of m) = done (map_of m)
kept_value now _ = crashed

-- What stands at a path: nothing, where it leads through what is not a map.
abbrev pub value_at : Fields → List Text → Option Value
value_at m [] = none
value_at m (k ∷ []) = some (value_or_null (lookup_value m k))
value_at m (k ∷ j ∷ ks) = elim (lookup_value m k) [
  | some (nested n) ↦ value_at n (j ∷ ks)
  | _ ↦ none
]

-- Whether a value is the one that is expected.
abbrev pub compared : Option Value → Value → Outcome Bool
compared none v = done false
compared (some w) v = equals w v

-- The first value that is not as expected decides.
abbrev pub and_then : Outcome Bool → Outcome Bool → Outcome Bool
and_then here rest = here >>= λ same. if same then rest else done false

-- Whether the document has the values that are expected.
abbrev pub as_expected : Bool → Fields → List FieldValue → Outcome Bool
as_expected lower_case doc [] = done true
as_expected lower_case doc (([], v) ∷ conds) = crashed
as_expected lower_case doc ((k ∷ ks, v) ∷ conds) =
    and_then (compared (value_at doc (path_of lower_case (k ∷ ks))) v)
      (as_expected lower_case doc conds)

-- An update is to be made unless it is of the time of the update.
abbrev pub is_made : Bool → FieldValue → Bool
is_made lower_case ([], v) = true
is_made lower_case (k ∷ ks, v) = not (text_eq k (updated_at_field lower_case))

abbrev pub has_empty_path : List FieldValue → Bool
has_empty_path [] = false
has_empty_path (([], v) ∷ updates) = true
has_empty_path ((k ∷ ks, v) ∷ updates) = has_empty_path updates

abbrev pub write_all : Bool → Fields → List FieldValue → Fields
write_all lower_case doc [] = doc
write_all lower_case doc ((path, v) ∷ updates) =
    write_all lower_case (update_field doc (path_of lower_case path) v) updates

abbrev pub updated : Bool → Fields → List FieldValue → Outcome Fields
updated lower_case doc updates =
    if has_empty_path updates
    then crashed
    else done (write_all lower_case doc (select (is_made lower_case) updates))

-- An update, without the time of it.
abbrev pub change_of : Bool → Fields → List FieldValue → List FieldValue → Outcome Fields
change_of lower_case doc updates conds = as_expected lower_case doc conds >>= λ expected.
    if expected then updated lower_case doc updates else failed precondition_failed

-- What a filter looks at: nothing, where its path is not there; a path through what is not a map panics.
abbrev pub looked_at : Fields → List Text → Outcome (Option Value)
looked_at m [] = crashed
looked_at m (k ∷ []) = done (some (value_or_null (lookup_value m k)))
looked_at m (k ∷ j ∷ ks) = elim (value_or_null (lookup_value m k)) [
  | null ↦ done none
  | nested n ↦ looked_at n (j ∷ ks)
  | _ ↦ crashed
]

-- The operators of filters.
abbrev pub stands_to : Comparisons → Op → Value → Value → Outcome Bool
stands_to c equal w v = done (c.equal_values v w)
stands_to c greater_than w v = done (c.greater v w)
stands_to c greater_than_equal w v = done (c.equal_values v w || c.greater_or_equal v w)
stands_to c less_than w v = done (c.less v w)
stands_to c less_than_equal w v = done (c.equal_values v w || c.less_or_equal v w)
stands_to c (other_op o) w v = crashed

abbrev pub if_there : (Value → Outcome Bool) → Option Value → Outcome Bool
if_there test none = done false
if_there test (some v) = test v

-- Whether a document passes all filters, up to the first that it does not.
abbrev pub passes : Comparisons → Bool → Fields → List Filter → Outcome Bool
passes c lower_case doc [] = done true
passes c lower_case doc (f ∷ filters) =
    and_then (looked_at doc (path_of lower_case f.path) >>= if_there (stands_to c f.op f.value))
      (passes c lower_case doc filters)

abbrev pub is_there : Option Fields → Bool
is_there none = false
is_there (some doc) = true
