-- ===== src/Issue/Reports.antt =====
-- Which reports a listing holds, and what becomes of a report between its creation and its deletion.
use blue.Prelude.{
  pos, Text, text, text_eq, split, Bool, true, false, ◌&&◌, not, ◌≡◌, refl, [], ◌∷◌, if◌then◌else◌,
  arith,
}
use blue.Document.{Collection, find, put, documents, select}
use blue.Document.Outcome.{done}
use blue.Document.Fields.{
  words, flag, number, Comparisons, matches_all, match_filter, match_value, lookup_value,
}
use blue.Issue.Format.{Report, as_document, make_report_filters}
use blue.Issue.{Tracker, list_reports, list_package_reports}

-- assert.EqualValues on the values that the tracker filters by.
pub record Compares (c : Comparisons) : Type 0 where
  pub same_number : c.equal_values (number (pos 0)) (number (pos 0)) ≡ true
  pub same_words : (s t : Text) → c.equal_values (words s) (words t) ≡ text_eq s t
  pub same_flag : (a b : Bool) → c.equal_values (flag a) (flag b) ≡ (if b then a else not a)

-- The user's filters that ask for closed reports, and none, which asks for open ones.
abbrev pub asking_for : Bool → Collection Text
asking_for true = (text "Closed", text "true") ∷ []
asking_for false = []

-- A report of the package that is closed, or open.
abbrev pub is_listed : Bool → Text → Report → Bool
is_listed closed pkg r = text_eq r.pkg pkg && (if closed then r.closed else not r.closed)

module _ (c : Comparisons) (laws : Compares c) where
  matches_all-listed :
      (lower_case closed : Bool) (pkg : Text) (r : Report)
      → matches_all c lower_case
          (as_document lower_case r)
          (make_report_filters pkg (asking_for closed))
        ≡ done (is_listed closed pkg r)
  unfolding matches_all match_filter match_value lookup_value as_document make_report_filters
      text_eq find put split
  matches_all-listed true true pkg r =
      rw (laws.same_number, laws.same_words r.pkg pkg)
        (rw (laws.same_flag r.closed true) (ground arith))
  matches_all-listed true false pkg r =
      rw (laws.same_number, laws.same_words r.pkg pkg)
        (rw (laws.same_flag r.closed false) (ground arith))
  matches_all-listed false true pkg r =
      rw (laws.same_number, laws.same_words r.pkg pkg)
        (rw (laws.same_flag r.closed true) (ground arith))
  matches_all-listed false false pkg r =
      rw (laws.same_number, laws.same_words r.pkg pkg)
        (rw (laws.same_flag r.closed false) (ground arith))

  list_reports-listed :
      (lower_case closed : Bool) (pkg : Text) (db : Collection Report)
      → list_reports c lower_case (make_report_filters pkg (asking_for closed)) db
        ≡ done (select (is_listed closed pkg) (documents db))
  unfolding list_reports select
  list_reports-listed lower_case closed pkg [] = refl
  list_reports-listed lower_case closed pkg ((id, r) ∷ db) =
      rw (matches_all-listed lower_case closed pkg r, list_reports-listed lower_case closed pkg db)
        refl

  -- ListPackageReports answers with exactly the open reports of the package, or with exactly the closed
  -- ones if the filters ask for those, in the order of the documents, under either kind of marshaler.
  pub list_package_reports_exact :
      (lower_case closed : Bool) (t : Tracker) (pkg : Text)
      → list_package_reports c lower_case t pkg (asking_for closed)
        ≡ done (select (is_listed closed pkg) (documents t.db))
  list_package_reports_exact lower_case closed t pkg =
      list_reports-listed lower_case closed pkg t.db
