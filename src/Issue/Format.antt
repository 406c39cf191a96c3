-- ===== src/Issue/Format.antt =====
-- Reports, their IDs, the documents they are stored as and the filters that list them, of
-- issue/report.go and issue/document_tracker.go.
use blue.Prelude.{
  ℕ, suc, ℤ, pos, negsuc, Text, text, text_eq, to_lower, to_upper, itoa, atoi, split, Bool, true,
  false, ◌||◌, not, List, [], ◌∷◌, ◌++◌, map, Option, none, some, if◌then◌else◌,
}
use blue.Document.{Collection, find, put}
use blue.Document.Fields.{
  Value, words, flag, number, time, nested, Fields, end, field, Filter, equal,
}

-- Report. The build is not looked at; the zero time is 0.
pub record Report : Type 0 where
  pub pkg : Text
  pub version : Text
  pub author : Text
  pub subject : Text
  pub notes : Text
  pub build : Text
  pub created_at : ℕ
  pub updated_at : ℕ
  pub updated_by : Text
  pub closed : Bool
  pub closed_at : ℕ
  pub metadata : Collection Text

abbrev pub id_field : Text
id_field = text "_id"

abbrev pub issue_number_field : Text
issue_number_field = text "_in"

-- strconv.Itoa
abbrev pub itoa_ℤ : ℤ → Text
itoa_ℤ (pos n) = itoa n
itoa_ℤ (negsuc n) = b'-' ∷ itoa (suc n)

-- makeID, of a package in ASCII, whose letters strings.ToUpper raises one by one
unfoldable pub make_id : Text → ℤ → Text
make_id pkg seq = to_upper pkg ++ (b'-' ∷ itoa_ℤ seq)

-- parseID
abbrev pub second_token : List Text → Option Text
second_token (a ∷ b ∷ []) = some b
second_token _ = none

abbrev pub read_seq : Option Text → Option ℤ
read_seq none = none
read_seq (some token) = atoi token

unfoldable pub parse_id : Text → Option ℤ
parse_id id = read_seq (second_token (split b'-' id))

-- The fields of a ReportDocument, by their names under a marshaler that lowers them or not.
module _ (lower_case : Bool) where
  abbrev pub named : Text → Value → Fields → Fields
  named k v m = field (if lower_case then to_lower k else k) v m

  abbrev pub metadata_fields : Collection Text → Fields
  metadata_fields [] = end
  metadata_fields ((k, v) ∷ m) = field k (words v) (metadata_fields m)

  unfoldable pub as_document : Report → Fields
  as_document r = named (text "Type") (number (pos 0)) (
      named (text "Report")
        (nested (
          named (text "Package") (words r.pkg) (
            named (text "Version") (words r.version) (
              named (text "Author") (words r.author) (
                named (text "Subject") (words r.subject) (
                  named (text "Notes") (words r.notes) (
                    named (text "Build") (words r.build) (
                      named (text "CreatedAt") (time r.created_at) (
                        named (text "UpdatedAt") (time r.updated_at) (
                          named (text "UpdatedBy") (words r.updated_by) (
                            named (text "Closed") (flag r.closed) (
                              named (text "ClosedAt") (time r.closed_at) (
                                named (text "Metadata") (nested (metadata_fields r.metadata))
                                  end)))))))))))))
        end)

abbrev pub one_of : Text → List Text → Bool
one_of s [] = false
one_of s (t ∷ ts) = text_eq s t || one_of s ts

-- The value of a user's filter: a Boolean, of the word for one under Closed.
abbrev pub filter_value : Text → Text → Value
filter_value k v =
    if not (text_eq k (text "Closed"))
    then words v
    else if one_of v (text "True" ∷ text "true" ∷ text "TRUE" ∷ [])
    then flag true
    else if one_of v (text "False" ∷ text "false" ∷ text "FALSE" ∷ [])
    then flag false
    else words v

abbrev pub equal_filter : List Text → Value → Filter
equal_filter path v = record { path = path; value = v; op = equal }

-- The user's filters, with the one for open reports where none is on Closed.
abbrev pub with_closed : Option Text → Collection Text → Collection Text
with_closed (some v) user_filters = user_filters
with_closed none user_filters = put user_filters (text "Closed") (text "false")

-- makeReportFilters
unfoldable pub make_report_filters : Text → Collection Text → List Filter
make_report_filters pkg user_filters =
    equal_filter (text "Type" ∷ []) (number (pos 0))
    ∷ equal_filter (text "Report" ∷ text "Package" ∷ []) (words pkg)
    ∷ map (λ e. equal_filter (text "Report" ∷ split b'.' e.0) (filter_value e.0 e.1))
        (with_closed (find user_filters (text "Closed")) user_filters)

-- addVersionFilter
abbrev pub add_version_filter : List Filter → Text → List Filter
add_version_filter filters ver =
    filters ++ equal_filter (text "Report" ∷ text "Version" ∷ []) (words ver) ∷ []
