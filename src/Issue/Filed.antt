-- ===== src/Issue/Filed.antt =====
-- Every stored report carries the ID that it is stored under, whatever the tracker is asked.
use blue.Prelude.{
  add64, ℕ, zero, suc, pos, ℤ, Text, text_eq, text_eq→eq, Bool, ◌≡◌, refl, sym, ap, ◌∙◌, List, [],
  ◌∷◌, none, some, Bool-cases, Option-cases, inl, inr,
}
use mathlib.Core.Path.{subst}
use blue.Document.{Collection, find, put, remove}
use blue.Document.Laws.{find-put, find-remove}
use blue.Document.Outcome.{Outcome, done, failed, crashed}
use blue.Document.Fields.{Comparisons}
use blue.Issue.Format.{itoa_ℤ, Report, make_id, parse_id, id_field, issue_number_field}
use blue.Issue.{
  Tracker, numbered, with_last, with_times, is_incomplete, created_now, create_from, create_after,
  create_report, close_report, update_report, delete_report, last_number,
  auto_increment_max_retries,
}

-- The requests that change the documents.
pub data Request : Type 0 where
  create_request : ℕ → Report → Request
  close_request : ℕ → Text → Request
  update_request : ℕ → Text → Report → Request
  delete_request : Text → Request

-- A request that failed changes nothing.
abbrev pub or_same : Tracker → Outcome Tracker → Tracker
or_same t (done t') = t'
or_same t (failed e) = t
or_same t crashed = t

module _ (c : Comparisons) (lower_case : Bool) where
  abbrev pub request : Tracker → Request → Tracker
  request t (create_request now r) = (create_report c lower_case now t r).0
  request t (close_request now id) = or_same t (close_report now t id)
  request t (update_request now id r) = or_same t (update_report now t id r)
  request t (delete_request id) = or_same t (delete_report t id)

  abbrev pub request_all : Tracker → List Request → Tracker
  request_all t [] = t
  request_all t (q ∷ qs) = request_all (request t q) qs

-- The metadata of every report hold the ID it is stored under.
abbrev pub IsFiled : Collection Report → Type 0
IsFiled db = (id : Text) (r : Report) → find db id ≡ some r → find r.metadata id_field ≡ some id

find-numbered :
    (r : Report) (id : Text) (seq : ℤ) → find (numbered r id seq).metadata id_field ≡ some id
unfolding text_eq
find-numbered r id seq =
    find-put (put r.metadata id_field id) issue_number_field (itoa_ℤ seq) id_field
    ∙ find-put r.metadata id_field id id_field

put-IsFiled :
    (db : Collection Report) (id : Text) (r : Report)
    → IsFiled db
    → find r.metadata id_field ≡ some id
    → IsFiled (put db id r)
put-IsFiled db id r f h id' r' e = elim (Bool-cases (text_eq id id')) [
  | inl s ↦
      let g : find (put db id r) id' ≡ some r = rw (find-put db id r id', s) refl in
      let same : r ≡ r' = cc (g, e) in
      subst (λ x. find x.metadata id_field ≡ some id') same (h ∙ ap some (text_eq→eq id id' s))
  | inr s ↦
      let g : find (put db id r) id' ≡ find db id' = rw (find-put db id r id', s) refl in
      f id' r' (sym g ∙ e)
]

remove-IsFiled : (db : Collection Report) (id : Text) → IsFiled db → IsFiled (remove db id)
remove-IsFiled db id f id' r' e = elim (Bool-cases (text_eq id id')) [
  | inl s ↦
      let g : find (remove db id) id' ≡ none = rw (find-remove db id id', s) refl in
      absurd (cc (g, e))
  | inr s ↦
      let g : find (remove db id) id' ≡ find db id' = rw (find-remove db id id', s) refl in
      f id' r' (sym g ∙ e)
]

create_from-IsFiled :
    (calls : ℕ) (t : Tracker) (r : Report) (last : ℤ)
    → IsFiled t.db
    → IsFiled (create_from calls t r last).0.db
unfolding create_from
create_from-IsFiled zero t r last f = f
create_from-IsFiled (suc calls) t r last f =
    elim (Option-cases (find t.db (make_id r.pkg (add64 last (pos 1))))) [
      | inl free ↦
          rw (create_from, free)
            (put-IsFiled t.db (make_id r.pkg (add64 last (pos 1))) _ f
              (find-numbered r (make_id r.pkg (add64 last (pos 1))) (add64 last (pos 1))))
      | inr (old, taken) ↦
          rw (create_from, taken)
            (create_from-IsFiled calls (with_last t r.pkg (add64 last (pos 1))) r
              (add64 last (pos 1)) f)
    ]

close_report-IsFiled :
    (now : ℕ) (t : Tracker) (id : Text)
    → IsFiled t.db
    → IsFiled (or_same t (close_report now t id)).db
unfolding close_report
close_report-IsFiled now t id f = elim (Option-cases (find t.db id)) [
  | inl e ↦ rw (close_report, e) f
  | inr (r, e) ↦ rw (close_report, e) (put-IsFiled t.db id _ f (f id r e))
]

update_report-IsFiled :
    (now : ℕ) (t : Tracker) (id : Text) (r : Report)
    → IsFiled t.db
    → IsFiled (or_same t (update_report now t id r)).db
unfolding update_report
update_report-IsFiled now t id r f = elim (Bool-cases (is_incomplete r)) [
  | inl i ↦ rw (update_report, i) f
  | inr i ↦ elim (Option-cases (parse_id id)) [
    | inl p ↦ rw (update_report, i, p) f
    | inr (seq, p) ↦
        rw (update_report, i, p)
          (put-IsFiled t.db id (numbered (with_times now r) id seq) f
            (find-numbered (with_times now r) id seq))
  ]
]

delete_report-IsFiled :
    (t : Tracker) (id : Text) → IsFiled t.db → IsFiled (or_same t (delete_report t id)).db
unfolding delete_report
delete_report-IsFiled t id f = elim (Option-cases (find t.db id)) [
  | inl e ↦ rw (delete_report, e) f
  | inr (r, e) ↦ rw (delete_report, e) (remove-IsFiled t.db id f)
]

create_after-IsFiled :
    (now : ℕ) (t : Tracker) (r : Report) (last : Outcome ℤ)
    → IsFiled t.db
    → IsFiled (create_after now t r last).0.db
unfolding create_after
create_after-IsFiled now t r (done last) f =
    create_from-IsFiled auto_increment_max_retries (with_last t r.pkg last) (created_now now r) last
      f
create_after-IsFiled now t r (failed e) f = f
create_after-IsFiled now t r crashed f = f

module _ (c : Comparisons) (lower_case : Bool) where
  create_report-IsFiled :
      (now : ℕ) (t : Tracker) (r : Report)
      → IsFiled t.db
      → IsFiled (create_report c lower_case now t r).0.db
  unfolding create_report
  create_report-IsFiled now t r f = elim (Bool-cases (is_incomplete r)) [
    | inl i ↦ rw (create_report, i) f
    | inr i ↦
        rw (create_report, i) (create_after-IsFiled now t r (last_number c lower_case t r.pkg) f)
  ]

  -- Every report that a sequence of requests leaves in the storage, of a tracker whose reports carry their
  -- IDs, carries the ID that it is stored under.
  pub request_all-IsFiled :
      (qs : List Request) (t : Tracker) → IsFiled t.db → IsFiled (request_all c lower_case t qs).db
  request_all-IsFiled [] t f = f
  request_all-IsFiled (create_request now r ∷ qs) t f =
      request_all-IsFiled qs _ (create_report-IsFiled now t r f)
  request_all-IsFiled (close_request now id ∷ qs) t f =
      request_all-IsFiled qs _ (close_report-IsFiled now t id f)
  request_all-IsFiled (update_request now id r ∷ qs) t f =
      request_all-IsFiled qs _ (update_report-IsFiled now t id r f)
  request_all-IsFiled (delete_request id ∷ qs) t f =
      request_all-IsFiled qs _ (delete_report-IsFiled t id f)
