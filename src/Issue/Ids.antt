-- ===== src/Issue/Ids.antt =====
-- The IDs of reports: printing and reading the number, and packages with a dash.
use blue.Prelude.{
  ℕ, ◌-◌, ◌^◌, ◌<◌, ◌≤◌, pos, Text, text, to_upper, has_byte, itoa, atoi-itoa, has_byte-itoa, split,
  split-append, split-whole, split-long, length, leb, ◌==◌, ◌≡◌, refl, ap, ◌∙◌, true, false, ◌&&◌,
  List, [], ◌∷◌, ◌++◌, none, some, if◌then◌else◌, Bool-cases, inl, inr, arith,
}
use blue.Document.Outcome.{done, failed, other_failure}
use blue.Document.{put}
use blue.Issue.{numbered, with_times, Tracker, update_report, is_incomplete}
use blue.Issue.Format.{Report, make_id, parse_id, second_token, read_seq}

-- Capitals bring in no dash and take none away.
upper_dash : (c : ℕ) → ((if leb 97 c && leb c 122 then c - 32 else c) == 45) ≡ (c == 45)
upper_dash c = ground arith

has_byte-to_upper : (s : Text) → has_byte 45 (to_upper s) ≡ has_byte 45 s
has_byte-to_upper [] = refl
has_byte-to_upper (c ∷ s) = rw (upper_dash c, has_byte-to_upper s) refl

-- An ID that CreateReport makes gives its number back to UpdateReport, for a package without a dash in its
-- name and a number that fits in an int.
parse_id-make_id :
    (pkg : Text) (n : ℕ)
    → has_byte b'-' pkg ≡ false
    → n < 2 ^ 63
    → parse_id (make_id pkg (pos n)) ≡ some (pos n)
unfolding parse_id make_id
parse_id-make_id pkg n d h =
    ap (λ ts. read_seq (second_token ts))
      (split-append 45 (to_upper pkg) (itoa n) (has_byte-to_upper pkg ∙ d)
        ∙ ap (λ ts. to_upper pkg ∷ ts) (split-whole 45 (itoa n) (has_byte-itoa 45 n refl)))
    ∙ atoi-itoa n h

second_token-long : (ts : List Text) → 3 ≤ length ts → second_token ts ≡ none
second_token-long [] h = refl
second_token-long (a ∷ []) h = refl
second_token-long (a ∷ b ∷ []) h = absurd (omega (arith, h))
second_token-long (a ∷ b ∷ c ∷ ts) h = refl

-- No number is read back for a package with a dash in its name.
parse_id-make_id_dashed :
    (pkg : Text) (n : ℕ) → has_byte b'-' pkg ≡ true → parse_id (make_id pkg (pos n)) ≡ none
unfolding parse_id make_id
parse_id-make_id_dashed pkg n d = ap read_seq (
    second_token-long (split 45 (to_upper pkg ++ (45 ∷ itoa n)))
      (split-long 45 (to_upper pkg) (itoa n) (has_byte-to_upper pkg ∙ d)))

-- UpdateReport under an ID that CreateReport makes, of a number that fits in an int: it refuses a report
-- without a package, an author or a subject, and every other if the package of the ID has a dash in its name;
-- otherwise it stores the report, with its times set, under the ID and with the number of the ID.
pub update_report-make_id :
    (now : ℕ) (t : Tracker) (pkg : Text) (n : ℕ) (r : Report)
    → n < 2 ^ 63
    → update_report now t (make_id pkg (pos n)) r ≡ (
        if is_incomplete r
        then failed (other_failure (text "invalid report"))
        else if has_byte b'-' pkg
        then failed (other_failure (text "extraneous issue id"))
        else done (record t {
          db =
              put t.db
                (make_id pkg (pos n))
                (numbered (with_times now r) (make_id pkg (pos n)) (pos n));
        }))
unfolding update_report
update_report-make_id now t pkg n r h = elim (Bool-cases (has_byte b'-' pkg)) [
  | inl d ↦ rw (d, parse_id-make_id_dashed pkg n d) refl
  | inr d ↦ rw (d, parse_id-make_id pkg n d h) refl
]
