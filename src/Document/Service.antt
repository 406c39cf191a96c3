-- ===== src/Document/Service.antt =====
-- What a document service is given and how it stores it: the kinds of value that Create and Set take, the
-- stamping of times and Encode (document/encoding.go), and the operations of document/service.go.
use blue.Prelude.{[], ◌∷◌, ℕ, Text, text, text_eq, Bool, List, Option, none, some, if◌then◌else◌}
use blue.Document.Outcome.{Outcome, done, failed, crashed, ◌>>=◌, answer_or, not_decoded}
use blue.Document.Fields.{Value, Fields, time, put_value, FieldValue, updated_at_field}

-- A field of a struct: a value that is a time or not of struct kind, or a struct of another type.
pub data Member : Type 0 where
  plain : Value → Member
  structure : Fields → Member

-- The exported fields of a struct, by their names, which are distinct.
abbrev pub Members : Type 0
Members = List (Text × Member)

-- A value of type any, by its kind: nil, a map[string]any, a map of another type, a struct, a pointer, or
-- something else.
pub data Given : Type 0 where
  nothing scalar : Given
  map_of typed_map : Fields → Given
  struct_of : Members → Given
  pointer : Given → Given

-- docmarshal.Marshaler. A document is read back into a map.
pub record Marshaler : Type 0 where
  pub marshal : Given → Option Text
  pub unmarshal : Text → Option Fields
  pub lower_case : Bool

-- DerefCreateValue
abbrev pub deref_create_value : Given → Option Given
deref_create_value (pointer g) = deref_create_value g
deref_create_value (map_of m) = some (map_of m)
deref_create_value (typed_map m) = some (typed_map m)
deref_create_value (struct_of m) = some (struct_of m)
deref_create_value nothing = none
deref_create_value scalar = none

-- f.Set of a time, on a field of the name: it panics on a struct of another type, and is not reached on a
-- field of another kind.
abbrev pub set_time : ℕ → Member → Option Member
set_time now (plain (time t)) = some (plain (time now))
set_time now (plain v) = some (plain v)
set_time now (structure m) = none

abbrev pub before_rest : Text → Option Member → Option Members → Option Members
before_rest j (some f) (some rest) = some ((j, f) ∷ rest)
before_rest j (some f) none = none
before_rest j none rest = none

-- reflectSetTimeField, where `none` is a panic
unfoldable pub set_time_field : Members → Text → ℕ → Option Members
set_time_field [] k now = some []
set_time_field ((j, f) ∷ m) k now =
    before_rest j (if text_eq j k then set_time now f else some f) (set_time_field m k now)

abbrev pub set_both : ℕ → Option Members → Option Members
set_both now none = none
set_both now (some m) = set_time_field m (text "UpdatedAt") now

abbrev pub struct_or_panic : Option Members → Outcome Given
struct_or_panic none = crashed
struct_or_panic (some m) = done (struct_of m)

-- UpdateDefaultCreatedAtField. Of a map, the copies that hold the times are dropped.
abbrev pub stamp_created : ℕ → Given → Outcome Given
stamp_created now (map_of m) = done (map_of m)
stamp_created now (struct_of m) =
    struct_or_panic (set_both now (set_time_field m (text "CreatedAt") now))
stamp_created now (pointer (struct_of m)) =
    struct_or_panic (set_both now (set_time_field m (text "CreatedAt") now))
stamp_created now (pointer g) = crashed
stamp_created now (typed_map m) = crashed
stamp_created now nothing = crashed
stamp_created now scalar = crashed

abbrev pub pointer_or_panic : Option Members → Outcome Given
pointer_or_panic none = crashed
pointer_or_panic (some m) = done (pointer (struct_of m))

-- UpdateDefaultUpdatedAtField
abbrev pub stamp_updated : Bool → ℕ → Given → Outcome Given
stamp_updated lower_case now (map_of m) =
    done (map_of (put_value m (updated_at_field lower_case) (time now)))
stamp_updated lower_case now (struct_of m) =
    pointer_or_panic (set_time_field m (updated_at_field lower_case) now)
stamp_updated lower_case now (pointer (struct_of m)) =
    pointer_or_panic (set_time_field m (updated_at_field lower_case) now)
stamp_updated lower_case now (pointer g) = crashed
stamp_updated lower_case now (typed_map m) = crashed
stamp_updated lower_case now nothing = crashed
stamp_updated lower_case now scalar = crashed

-- Encode, which panics if the marshaler fails.
abbrev pub marshalled : Marshaler → Given → Outcome Text
marshalled m g = answer_or crashed done (m.marshal g)

unfoldable pub encode : Marshaler → ℕ → Given → Bool → Outcome Text
encode m now doc add_created_at =
    (if add_created_at then stamp_created now doc else stamp_updated m.lower_case now doc)
    >>= marshalled m

-- decode, into a map
abbrev pub decode : Marshaler → Text → Outcome Fields
decode m raw = answer_or (failed not_decoded) done (m.unmarshal raw)

-- The operations of a Service on its state. Each call reads the clock once.
pub record Service {ℓ} (S : Type ℓ) : Type ℓ where
  pub create : ℕ → S → Text → Given → S × Outcome (Unit {0})
  pub set : ℕ → S → Text → Given → S × Outcome (Unit {0})
  pub update : ℕ → S → Text → List FieldValue → List FieldValue → S × Outcome (Unit {0})
  pub get : S → Text → Outcome Fields
  pub delete : S → Text → S × Outcome (Unit {0})
