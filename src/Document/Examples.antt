-- ===== src/Document/Examples.antt =====
-- The theorems on documents, at concrete documents, with a codec for maps of no entry or of one time.
use blue.Prelude.{
  Bool, Text, text, text_eq, true, false, ◌≡◌, refl, List, [], ◌∷◌, Option, none, some,
}
use mathlib.Core.Path.{subst}
use blue.Document.{find, put, remove}
use blue.Document.Outcome.{done, failed, crashed, precondition_failed, not_found, already_exists}
use blue.Document.Fields.{
  Fields, null, words, flag, number, time, nested, end, field, lookup_value, put_value,
  precond_field, update_field, check_preconditions, apply_updates, update_proto, Value, Comparisons,
  Filter, equal, equals, match_value, match_filter, matches_all,
}
use blue.Document.Fields.Paths.{update_proto-keeps, update_proto-refuses_stale}
use blue.Document.Service.{
  Given, nothing, scalar, map_of, typed_map, struct_of, pointer, Marshaler, encode,
}
use blue.Document.InMemory.{
  Storage, in_memory, set_value, get_value, update_value, extend, extend_all, next_to,
}
use blue.Document.InMemory.Specified.{
  Command, no_document, document, documents_listed, list_docs, drain, create_doc, get_doc,
  delete_doc, update_doc, answers, serve, specified,
}
use blue.Document.InMemory.Refines.{serve-refines}
use blue.Document.Partition.{make_partition_id, with_partition}
use blue.Document.Partition.Isolation.{
  Call, create_call, set_call, delete_call, perform_all, partitions_isolated, in_memory-Separate,
}

abbrev marshal_time : Given → Option Text
marshal_time (map_of end) = some []
marshal_time (map_of (field k (time t) end)) = some (t ∷ k)
marshal_time _ = none

abbrev unmarshal_time : Text → Option Fields
unmarshal_time [] = some end
unmarshal_time (t ∷ k) = some (field k (time t) end)

abbrev times : Marshaler
times = record { marshal = marshal_time; unmarshal = unmarshal_time; lower_case = false }

abbrev as_stored : Given → Fields
as_stored (map_of m) = m
as_stored _ = end

times_codec :
    (g : Given) (raw : Text) → marshal_time g ≡ some raw → unmarshal_time raw ≡ some (as_stored g)
times_codec nothing raw h = absurd (cc h)
times_codec scalar raw h = absurd (cc h)
times_codec (typed_map m) raw h = absurd (cc h)
times_codec (struct_of m) raw h = absurd (cc h)
times_codec (pointer g) raw h = absurd (cc h)
times_codec (map_of end) raw h = cc h
times_codec (map_of (field k null m)) raw h = absurd (cc h)
times_codec (map_of (field k (words s) m)) raw h = absurd (cc h)
times_codec (map_of (field k (flag b) m)) raw h = absurd (cc h)
times_codec (map_of (field k (number z) m)) raw h = absurd (cc h)
times_codec (map_of (field k (nested n) m)) raw h = absurd (cc h)
times_codec (map_of (field k (time t) (field j v m))) raw h = absurd (cc h)
times_codec (map_of (field k (time t) end)) raw h =
    let e : (t ∷ k) ≡ raw = cc h in
    subst (λ (x : Text). unmarshal_time x ≡ some (field k (time t) end)) e refl

-- Filters compare by equality.
abbrev by_equality : Value → Value → Bool
by_equality v w = elim (equals v w) [ done b ↦ b | failed e ↦ false | crashed ↦ false ]

abbrev nothing_greater : Value → Value → Bool
nothing_greater v w = false

abbrev comparisons : Comparisons
comparisons = record {
  equal_values = by_equality;
  greater = nothing_greater;
  less = nothing_greater;
  greater_or_equal = nothing_greater;
  less_or_equal = nothing_greater;
}

abbrev stamped : List Filter
stamped = record { path = text "UpdatedAt" ∷ []; value = time 3; op = equal } ∷ []

-- Calls on two documents: a second Create, an update of a missing path, a listing, a Delete.
abbrev some_calls : List Command
some_calls =
    create_doc 1 (text "a") (map_of end)
    ∷ create_doc 2 (text "a") (map_of end)
    ∷ update_doc 3 (text "a") ((text "x" ∷ text "y" ∷ [], flag true) ∷ []) []
    ∷ get_doc (text "a")
    ∷ list_docs stamped
    ∷ get_doc (text "b")
    ∷ delete_doc (text "a")
    ∷ get_doc (text "a")
    ∷ []

eight_calls :
    answers (serve times comparisons) [] some_calls
    ≡ done no_document
      ∷ failed already_exists
      ∷ done no_document
      ∷ done (document (field (text "UpdatedAt") (time 3) end))
      ∷ done (documents_listed (field (text "UpdatedAt") (time 3) end ∷ []))
      ∷ failed not_found
      ∷ done no_document
      ∷ failed not_found
      ∷ []
unfolding text_eq find put remove lookup_value put_value update_field check_preconditions
    apply_updates update_proto encode set_value get_value update_value drain next_to extend
    extend_all match_value match_filter matches_all
eight_calls = refl

serve-refines_example :
    answers (serve times comparisons) [] some_calls
    ≡ answers (specified times as_stored comparisons) [] some_calls
serve-refines_example = serve-refines times as_stored times_codec comparisons some_calls [] [] tt

-- An issue's state, and the moves that two clients make of it.
abbrev ticket : Fields
ticket =
    field (text "Issue") (nested (field (text "State") (words (text "open")) end))
      (field (text "Owner") (words (text "ann")) end)

abbrev state_path : List Text
state_path = text "Issue" ∷ text "State" ∷ []

abbrev closed_ticket : Fields
closed_ticket =
    field (text "Issue") (nested (field (text "State") (words (text "closed")) end))
      (field (text "Owner") (words (text "ann")) (field (text "UpdatedAt") (time 7) end))

update_proto-refuses_stale_example :
    update_proto false 8 closed_ticket
      ((state_path, words (text "stuck")) ∷ [])
      ((state_path, words (text "open")) ∷ [])
    ≡ failed precondition_failed
unfolding text_eq lookup_value put_value precond_field update_field check_preconditions
    apply_updates update_proto
update_proto-refuses_stale_example =
    update_proto-refuses_stale false 7 8 ticket [] ((state_path, words (text "stuck")) ∷ []) [] []
      (text "Issue") (text "State" ∷ []) (words (text "open")) (words (text "closed")) refl refl
      refl refl

update_proto-keeps_example :
    lookup_value closed_ticket (text "Owner") ≡ lookup_value ticket (text "Owner")
unfolding text_eq lookup_value put_value precond_field update_field check_preconditions
    apply_updates update_proto
update_proto-keeps_example =
    update_proto-keeps false 7 ticket ((state_path, words (text "closed")) ∷ [])
      ((state_path, words (text "open")) ∷ []) (text "Owner") refl refl refl

abbrev partition_calls : List Call
partition_calls =
    create_call 4 (text "k") (map_of end)
    ∷ delete_call (text "k")
    ∷ set_call 5 (text "k") (map_of end)
    ∷ []

abbrev one_document : Storage
one_document = (make_partition_id (text "right") (text "k"), []) ∷ []

partitions_isolated_example :
    (with_partition (in_memory times) (text "right")).get
      (perform_all (with_partition (in_memory times) (text "left")) one_document partition_calls)
      (text "k")
    ≡ (with_partition (in_memory times) (text "right")).get one_document (text "k")
unfolding text_eq
partitions_isolated_example =
    partitions_isolated (in_memory times) (in_memory-Separate times) (text "left") partition_calls
      one_document (text "right") (text "k") refl refl refl
