-- ===== src/Issue/Examples.antt =====
-- The theorems on the issue tracker, at concrete reports.
use blue.Prelude.{
  add64, wrap64, ◌+ℤ◌, pos, Text, text, text_eq, itoa, atoi, decimal, digits_value, split, Bool,
  true, false, ◌≡◌, refl, List, [], ◌∷◌, arith,
}
use blue.Document.{find, put, documents, select}
use blue.Document.Outcome.{Outcome, done, failed, crashed, other_failure}
use blue.Document.Fields.{
  Value, Comparisons, equals, matches_all, match_filter, match_value, lookup_value,
}
use blue.Issue.Format.{Report, make_id, as_document, make_report_filters}
use blue.Issue.{
  create_after, create_from, Tracker, numbered, auto_increment_max_retries, created_now,
  max_issue_number, create_report, last_number, update_report, list_reports, list_package_reports,
}
use blue.Issue.Ids.{update_report-make_id}
use blue.Issue.Numbers.{Numbering, create_report-Numbering}
use blue.Issue.Reports.{Compares, asking_for, is_listed, list_package_reports_exact}
use blue.Issue.Filed.{
  Request, create_request, close_request, update_request, delete_request, request_all, IsFiled,
  request_all-IsFiled,
}

abbrev truth : Outcome Bool → Bool
truth (done b) = b
truth (failed e) = false
truth crashed = false

abbrev never : Value → Value → Bool
never v w = false

abbrev exact_comparisons : Comparisons
exact_comparisons = record {
  equal_values = λ v w. truth (equals v w);
  greater = never;
  less = never;
  greater_or_equal = never;
  less_or_equal = never;
}

exact_comparisons-Compares : Compares exact_comparisons
exact_comparisons-Compares = record {
  same_number = refl;
  same_words = λ s t. refl;
  same_flag = λ a b. ground arith;
}

abbrev bug : Text → Report
bug pkg = record {
  pkg = pkg;
  version = text "1.2";
  author = text "ann";
  subject = text "crash";
  notes = [];
  build = [];
  created_at = 0;
  updated_at = 0;
  updated_by = [];
  closed = false;
  closed_at = 0;
  metadata = [];
}

abbrev empty : Tracker
empty = record { db = []; last_issue_number = [] }

-- After a restart: the third report of the package is on file, its number not yet known.
abbrev restarted : Tracker
restarted = record {
  db = (text "BLUE-3", numbered (bug (text "blue")) (text "BLUE-3") (pos 3)) ∷ [];
  last_issue_number = [];
}

create_report-Numbering_example :
    Numbering restarted
      (created_now 9 (bug (text "blue")))
      auto_increment_max_retries
      3
      (create_report exact_comparisons true 9 restarted (bug (text "blue")))
unfolding text_eq find put itoa atoi decimal digits_value split matches_all match_filter match_value
    lookup_value as_document make_report_filters list_reports max_issue_number last_number
create_report-Numbering_example =
    create_report-Numbering exact_comparisons true 9 restarted (bug (text "blue")) 3 refl refl
      (omega arith)

abbrev requests : List Request
requests =
    create_request 10 (bug (text "blue"))
    ∷ close_request 11 (text "BLUE-1")
    ∷ create_request 12 (bug (text "blue"))
    ∷ update_request 13 (text "BLUE-2") (bug (text "blue"))
    ∷ delete_request (text "BLUE-1")
    ∷ []

request_all-IsFiled_example : IsFiled (request_all exact_comparisons true empty requests).db
unfolding find
request_all-IsFiled_example =
    request_all-IsFiled exact_comparisons true requests empty (λ id r e. absurd (cc e))

list_package_reports_exact_example :
    list_package_reports exact_comparisons true restarted (text "blue") (asking_for false)
    ≡ done (select (is_listed false (text "blue")) (documents restarted.db))
list_package_reports_exact_example =
    list_package_reports_exact exact_comparisons exact_comparisons-Compares true false restarted
      (text "blue")

update_report-make_id_example :
    update_report 14 restarted (make_id (text "blue-cli") (pos 3)) (bug (text "blue-cli"))
    ≡ failed (other_failure (text "extraneous issue id"))
update_report-make_id_example =
    update_report-make_id 14 restarted (text "blue-cli") 3 (bug (text "blue-cli")) (omega arith)

-- After the largest int, the numbers go on from the smallest.
abbrev at_the_end : Tracker
at_the_end = record empty { last_issue_number = (text "blue", pos 9223372036854775807) ∷ [] }

wraps_around :
    (create_report exact_comparisons true 9 at_the_end (bug (text "blue"))).1
    ≡ done (text "BLUE--9223372036854775808")
unfolding create_report create_after create_from last_number find put text_eq make_id itoa decimal
    add64 wrap64 ◌+ℤ◌
wraps_around = refl
