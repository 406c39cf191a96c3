-- ===== src/Issue/Numbers.antt =====
-- The numbers that CreateReport gives out.
use blue.Prelude.{
  add64, add64-pos, ◌^◌, ℤ, ℕ, zero, suc, ◌+◌, ◌<◌, ◌≤◌, pos, Text, text_eq_refl, ◌==◌, ==_iff,
  Bool, false, ◌≡◌, refl, ap, ◌∙◌, none, some, Bool-cases, Option-cases, inl, inr, arith,
}
use blue.Document.{find, put}
use blue.Document.Laws.{find-put}
use blue.Document.Outcome.{Outcome, done, failed, already_exists}
use blue.Document.Fields.{Comparisons}
use blue.Issue.Format.{Report, make_id}
use blue.Issue.{
  Tracker, numbered, with_last, create_from, create_after, create_report, created_now,
  is_incomplete, last_number, auto_increment_max_retries,
}

-- Every number above one and below another is taken.
abbrev pub AreTaken : Tracker → Text → ℕ → ℕ → Type 0
AreTaken t pkg low high =
    (n : ℕ) → low < n → n < high → (old : Report) × (find t.db (make_id pkg (pos n)) ≡ some old)

-- How an attempt to number a report ends: under the first free number of those tried, or with all of them
-- taken.
pub data Numbering (t : Tracker) (r : Report) (calls last : ℕ) (result : Tracker × Outcome Text)
    : Type 0 where
  numbered_as :
      (n : ℕ)
      → last < n
      → n ≤ last + calls
      → AreTaken t r.pkg last n
      → find t.db (make_id r.pkg (pos n)) ≡ none
      → result.1 ≡ done (make_id r.pkg (pos n))
      → result.0.db ≡ put t.db (make_id r.pkg (pos n)) (numbered r (make_id r.pkg (pos n)) (pos n))
      → find result.0.last_issue_number r.pkg ≡ some (pos n)
      → Numbering t r calls last result
  all_taken :
      AreTaken t r.pkg last (suc (last + calls))
      → result.1 ≡ failed already_exists
      → result.0.db ≡ t.db
      → Numbering t r calls last result

find-last :
    (t : Tracker) (pkg : Text) (n : ℤ) → find (with_last t pkg n).last_issue_number pkg ≡ some n
find-last t pkg n = rw (find-put t.last_issue_number pkg n pkg, text_eq_refl pkg) refl

-- One more number below those is taken.
taken_too :
    (t : Tracker) (pkg : Text) (last high : ℕ) {old : Report}
    → find t.db (make_id pkg (pos (suc last))) ≡ some old
    → AreTaken t pkg (suc last) high
    → AreTaken t pkg last high
taken_too t pkg last high {old} e h n a b = elim (Bool-cases (n == suc last)) [
  | inl s ↦ (old, ap (λ k. find t.db (make_id pkg (pos k))) ((==_iff n (suc last)).0 s) ∙ e)
  | inr s ↦ h n (ground (arith, a, s)) b
]

after_taken :
    (t : Tracker) (r : Report) (calls last : ℕ) (result : Tracker × Outcome Text) {old : Report}
    → find t.db (make_id r.pkg (pos (suc last))) ≡ some old
    → Numbering t r calls (suc last) result
    → Numbering t r (suc calls) last result
after_taken t r calls last result e (numbered_as n a b m free i d l) =
    numbered_as n (omega (arith, a)) (omega (arith, b)) (taken_too t r.pkg last n e m) free i d l
after_taken t r calls last result e (all_taken m i d) =
    all_taken (λ n a b. taken_too t r.pkg last (suc (suc last + calls)) e m n a (omega (arith, b)))
      i d

-- The number only moves the tracker's own count.
same_db :
    (t : Tracker) (r : Report) (k : ℤ) (calls last : ℕ) (result : Tracker × Outcome Text)
    → Numbering (with_last t r.pkg k) r calls last result
    → Numbering t r calls last result
same_db t r k calls last result (numbered_as n a b m free i d l) = numbered_as n a b m free i d l
same_db t r k calls last result (all_taken m i d) = all_taken m i d

create_from-Numbering :
    (calls : ℕ) (t : Tracker) (r : Report) (last : ℕ)
    → last + calls < 2 ^ 63
    → Numbering t r calls last (create_from calls t r (pos last))
unfolding create_from
create_from-Numbering zero t r last fits =
    all_taken (λ n a b. absurd (omega (arith, a, b))) refl refl
create_from-Numbering (suc calls) t r last fits =
    let next : add64 (pos last) (pos 1) ≡ pos (suc last) =
      add64-pos last 1 (omega (arith, fits)) ∙ ap pos (omega arith) in
    elim (Option-cases (find t.db (make_id r.pkg (pos (suc last))))) [
      | inl free ↦
          rw (create_from, next, free, next)
            (numbered_as (suc last) (omega arith) (omega arith)
              (λ n a b. absurd (omega (arith, a, b))) free refl refl
              (find-last t r.pkg (pos (suc last))))
      | inr (old, taken) ↦
          rw (create_from, next, taken, next)
            (after_taken t r calls last _ taken (
              same_db t r (pos (suc last)) calls (suc last) _ (
                create_from-Numbering calls (with_last t r.pkg (pos (suc last))) r (suc last)
                  (omega (arith, fits)))))
    ]

-- CreateReport, on a complete report of a package whose last number is known or can be listed, is not
-- negative and at least a thousand below 2^63: it stores the report, with its times set, under the first
-- number above the last that no document of the package has, answers with that ID and counts on from it,
-- and leaves the other documents; or, if the thousand numbers above the last are all taken, it fails and
-- stores nothing.
pub create_report-Numbering :
    (c : Comparisons) (lower_case : Bool) (now : ℕ) (t : Tracker) (r : Report) (last : ℕ)
    → is_incomplete r ≡ false
    → last_number c lower_case t r.pkg ≡ done (pos last)
    → last + auto_increment_max_retries < 2 ^ 63
    → Numbering t
        (created_now now r)
        auto_increment_max_retries
        last
        (create_report c lower_case now t r)
unfolding create_report create_after
create_report-Numbering c lower_case now t r last i l fits =
    rw (create_report, i, l)
      (same_db t (created_now now r) (pos last) auto_increment_max_retries last _ (
        create_from-Numbering auto_increment_max_retries (with_last t r.pkg (pos last))
          (created_now now r) last fits))
