-- ===== src/Document/InMemory/Filtered.antt =====
-- The documents that filters pass: what MatchesAllFilters of document/encoding.go answers is what it is to be.
use blue.Prelude.{
  Text, ◌≡◌, refl, Bool, true, false, ◌||◌, List, [], ◌∷◌, Option-cases, inl, inr, if◌then◌else◌,
}
use blue.Document.Fields.{
  Fields, Value, null, words, flag, number, time, nested, Filter, Comparisons, Op, equal,
  greater_than, greater_than_equal, less_than, less_than_equal, other_op, lookup_value,
  value_or_null, path_of, match_value, match_filter, matches_all,
}
use blue.Document.Outcome.{◌>>=◌}
use blue.Document.InMemory.Promised.{looked_at, stands_to, if_there, passes}

either : (a b : Bool) → (if a then true else b) ≡ a || b
either true b = refl
either false b = refl

match_value-stands_to :
    (c : Comparisons) (v : Value) (op : Op) (w : Value) → match_value c v op w ≡ stands_to c op w v
unfolding match_value
match_value-stands_to c v equal w = refl
match_value-stands_to c v greater_than w = refl
match_value-stands_to c v less_than w = refl
match_value-stands_to c v greater_than_equal w =
    rw (either (c.equal_values v w) (c.greater_or_equal v w)) refl
match_value-stands_to c v less_than_equal w =
    rw (either (c.equal_values v w) (c.less_or_equal v w)) refl
match_value-stands_to c v (other_op o) w = refl

match_filter-looked_at :
    (c : Comparisons) (doc : Fields) (path : List Text) (op : Op) (w : Value)
    → match_filter c doc path op w ≡ (looked_at doc path >>= if_there (stands_to c op w))
unfolding match_filter
match_filter-looked_at c doc [] op w = refl
match_filter-looked_at c doc (k ∷ []) op w =
    match_value-stands_to c (value_or_null (lookup_value doc k)) op w
match_filter-looked_at c doc (k ∷ j ∷ ks) op w = elim (Option-cases (lookup_value doc k)) [
  | inl e ↦ rw (e, match_filter, looked_at) refl
  | inr (nested n, e) ↦ rw (e, match_filter, looked_at) (match_filter-looked_at c n (j ∷ ks) op w)
  | inr (null, e) ↦ rw (e, match_filter, looked_at) refl
  | inr (words s, e) ↦ rw (e, match_filter, looked_at) refl
  | inr (flag b, e) ↦ rw (e, match_filter, looked_at) refl
  | inr (number z, e) ↦ rw (e, match_filter, looked_at) refl
  | inr (time t, e) ↦ rw (e, match_filter, looked_at) refl
]

pub matches_all-passes :
    (c : Comparisons) (lower_case : Bool) (doc : Fields) (filters : List Filter)
    → matches_all c lower_case doc filters ≡ passes c lower_case doc filters
unfolding matches_all
matches_all-passes c lower_case doc [] = refl
matches_all-passes c lower_case doc (f ∷ filters) =
    rw
      (
        match_filter-looked_at c doc (path_of lower_case f.path) f.op f.value,
        matches_all-passes c lower_case doc filters,
      )
      refl
