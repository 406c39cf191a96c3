-- ===== src/Issue.antt =====
-- issue/document_tracker.go: bug reports kept as documents, numbered per package. The documents are a
-- collection of reports, of the document service's contract.
pub mod Format
pub mod Ids
pub mod Numbers
pub mod Reports
pub mod Filed
mod Examples
use blue.Prelude.{
  ltb_ℤ, add64, ℕ, zero, suc, ◌+◌, ℤ, pos, negsuc, Text, text, text_eq, is_empty, to_lower,
  to_upper, itoa, atoi, split, ltb, ◌==◌, Bool, true, false, ◌||◌, not, List, [], ◌∷◌, ◌++◌, map,
  Option, none, some, if◌then◌else◌,
}
use blue.Document.{Collection, find, put, remove}
use blue.Document.Outcome.{
  Outcome, done, failed, crashed, ◌>>=◌, answer_or, not_found, already_exists, other_failure,
}
use blue.Document.Fields.{
  Value, words, flag, number, time, nested, Fields, end, field, Filter, equal, Comparisons,
  matches_all,
}
use blue.Issue.Format.{
  Report, itoa_ℤ, id_field, issue_number_field, make_id, parse_id, as_document, make_report_filters,
  add_version_filter,
}

-- documentTracker
pub record Tracker : Type 0 where
  pub db : Collection Report
  pub last_issue_number : Collection ℤ

-- The checks that CreateReport and UpdateReport begin with.
abbrev pub is_incomplete : Report → Bool
is_incomplete r = is_empty r.pkg || is_empty r.author || is_empty r.subject

abbrev pub refused {ℓ} : {A : Type ℓ} → Outcome A
refused = failed (other_failure (text "invalid report"))

-- The internal metadata that a stored report carries.
abbrev pub numbered : Report → Text → ℤ → Report
numbered r id seq = record r {
  metadata = put (put r.metadata id_field id) issue_number_field (itoa_ℤ seq);
}

-- The loop of fetchLastIssueNumber: the greatest number that can be read, from 0.
abbrev pub number_of : Option Text → Option ℤ
number_of none = none
number_of (some s) = atoi s

abbrev pub greater_number : Option ℤ → ℤ → ℤ
greater_number (some n) max = if ltb_ℤ max n then n else max
greater_number none max = max

unfoldable pub max_issue_number : List Report → ℤ → ℤ
max_issue_number [] max = max
max_issue_number (r ∷ reports) max =
    max_issue_number reports (greater_number (number_of (find r.metadata issue_number_field)) max)

-- autoIncrementMaxRetries
abbrev pub auto_increment_max_retries : ℕ
auto_increment_max_retries = 1000

abbrev pub with_last : Tracker → Text → ℤ → Tracker
with_last t pkg n = record t { last_issue_number = put t.last_issue_number pkg n }

-- The attempts of CreateReport, of which Retry makes as many as its strategy allows. The number is an int,
-- which wraps around.
unfoldable pub create_from : ℕ → Tracker → Report → ℤ → Tracker × Outcome Text
create_from zero t r last = (t, failed already_exists)
create_from (suc calls) t r last = elim (find t.db (make_id r.pkg (add64 last (pos 1)))) [
  | none ↦ (
    record (with_last t r.pkg (add64 last (pos 1))) {
      db =
          put t.db (make_id r.pkg (add64 last (pos 1)))
            (numbered r (make_id r.pkg (add64 last (pos 1))) (add64 last (pos 1)));
    },
    done (make_id r.pkg (add64 last (pos 1))),
  )
  | some old ↦ create_from calls (with_last t r.pkg (add64 last (pos 1))) r (add64 last (pos 1))
]

-- GetReport
abbrev pub get_report : Tracker → Text → Outcome Report
get_report t id = answer_or (failed not_found) done (find t.db id)

-- DeleteReport
unfoldable pub delete_report : Tracker → Text → Outcome Tracker
delete_report t id =
    answer_or (failed not_found) (λ r. done (record t { db = remove t.db id })) (find t.db id)

-- CloseReport, whose update of a stored report writes these fields.
unfoldable pub close_report : ℕ → Tracker → Text → Outcome Tracker
close_report now t id =
    answer_or (failed (other_failure (text "issue does not exist")))
      (λ (r : Report). done (record t {
        db = put t.db id (record r { closed = true; closed_at = now; updated_at = now });
      }))
      (find t.db id)

-- UpdateReport
abbrev pub with_times : ℕ → Report → Report
with_times now r = record r {
  updated_at = now;
  created_at = if r.created_at == 0 then now else r.created_at;
  closed_at = if not r.closed then 0 else if r.closed_at == 0 then now else r.closed_at;
}

unfoldable pub update_report : ℕ → Tracker → Text → Report → Outcome Tracker
update_report now t id r =
    if is_incomplete r
    then refused
    else answer_or (failed (other_failure (text "extraneous issue id")))
        (λ seq. done (record t { db = put t.db id (numbered (with_times now r) id seq) }))
        (parse_id id)

-- What CreateReport makes of a report before it is numbered.
abbrev pub created_now : ℕ → Report → Report
created_now now r = record r {
  created_at = if r.created_at == 0 then now else r.created_at;
  updated_at = now;
}

-- CreateReport, once the number of the last issue is known or could not be found.
unfoldable pub create_after : ℕ → Tracker → Report → Outcome ℤ → Tracker × Outcome Text
create_after now t r (done last) =
    create_from auto_increment_max_retries (with_last t r.pkg last) (created_now now r) last
create_after now t r (failed e) = (t, failed e)
create_after now t r crashed = (t, crashed)

-- The comparisons of filters, and whether the marshaler lowers the names of fields.
module _ (c : Comparisons) (lower_case : Bool) where
  -- list
  unfoldable pub list_reports : List Filter → Collection Report → Outcome (List Report)
  list_reports filters [] = done []
  list_reports filters ((id, r) ∷ db) =
      matches_all c lower_case (as_document lower_case r) filters >>= λ matches.
      list_reports filters db >>= λ reports. done (if matches then r ∷ reports else reports)

  -- ListPackageReports
  abbrev pub list_package_reports : Tracker → Text → Collection Text → Outcome (List Report)
  list_package_reports t pkg user_filters = list_reports (make_report_filters pkg user_filters) t.db

  -- ListVersionReports
  abbrev pub list_version_reports : Tracker → Text → Text → Collection Text → Outcome (List Report)
  list_version_reports t pkg ver user_filters =
      list_reports (add_version_filter (make_report_filters pkg user_filters) ver) t.db

  -- The number of the last issue: the one kept, or the one that fetchLastIssueNumber finds.
  unfoldable pub last_number : Tracker → Text → Outcome ℤ
  last_number t pkg = elim (find t.last_issue_number pkg) [
    | some n ↦ done n
    | none ↦ list_package_reports t pkg [] >>= λ reports. done (max_issue_number reports (pos 0))
  ]

  -- CreateReport
  unfoldable pub create_report : ℕ → Tracker → Report → Tracker × Outcome Text
  create_report now t r =
      if is_incomplete r then (t, refused) else create_after now t r (last_number t r.pkg)
