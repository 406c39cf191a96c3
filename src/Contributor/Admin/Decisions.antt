-- ===== src/Contributor/Admin/Decisions.antt =====
-- ProposeAward and DecideAward of contributor/admin.go.
use blue.Prelude.{
  ◌≡◌, refl, sym, ◌∙◌, Text, text_eq, text_eq→eq, text_eq_refl, Bool, true, false, [], ◌∷◌, ℤ,
  Option, some, All, Bool-cases, inl, inr, arith, if◌then◌else◌,
}
use blue.Document.{Collection, find, put}
use blue.Document.Laws.{find-put}
use blue.Contributor.Result.{ok, err, award_already_decided}
use blue.Contributor.Award.{Award, proposed, approved, rejected}
use blue.Contributor.Store.{Books, Call, get, set, get_award, set_award}
use blue.Contributor.Ledger.Reads.{reading, read, missing, failed, crashed, sound}
use blue.Contributor.Admin.{decide_found, decide_award, decided}

-- Every award is stored under its ID.
abbrev pub IsKeyed : Collection Award → Type 0
IsKeyed db = All (λ e. e.1.id ≡ e.0) db

find-IsKeyed :
    (db : Collection Award) (id : Text) {a : Award} → IsKeyed db → find db id ≡ some a → a.id ≡ id
unfolding find
find-IsKeyed [] id k h = cc h
find-IsKeyed ((i, d) ∷ db) id k h = elim (Bool-cases (text_eq i id)) [
  | inl same ↦ cc (rw same at h, k.0, text_eq→eq i id same)
  | inr other ↦ find-IsKeyed db id k.1 (rw other at h)
]

put-IsKeyed :
    (db : Collection Award) (id : Text) (a : Award) → IsKeyed db → a.id ≡ id → IsKeyed (put db id a)
unfolding put
put-IsKeyed [] id a k h = (h, tt)
put-IsKeyed ((i, d) ∷ db) id a k h = elim (Bool-cases (text_eq i id)) [
  | inl same ↦ rw same (h ∙ sym (text_eq→eq i id same), k.1)
  | inr other ↦ rw other (k.0, put-IsKeyed db id a k.1 h)
]

-- A decision that was taken: the award was there and proposed, and is replaced.
record Took (now : ℤ) (b : Books) (id : Text) (approve : Bool) (by note : Text) (b' : Books)
    (a' : Award) : Type 0 where
  a : Award
  held : find b.awards id ≡ some a
  was : a.status ≡ proposed
  now_is : a' ≡ decided now approve by note a
  books : b' ≡ record b { awards = put b.awards a.id a' }

get_award-ok :
    (faults : Call → Option Text) (db : Collection Award) (id : Text) {a : Award}
    → get_award faults db id ≡ ok a
    → find db id ≡ some a
unfolding get_award get
get_award-ok faults db id h = ground arith

decide_found-Took :
    (faults : Call → Option Text) (now : ℤ) (b : Books) (approve : Bool) (by note : Text)
    (a : Award) {b' : Books} {a' : Award}
    → decide_found faults now b approve by note a ≡ ok (b', a')
    → (a.status ≡ proposed)
      × (a' ≡ decided now approve by note a)
      × (b' ≡ record b { awards = put b.awards a.id a' })
unfolding decide_found set_award set
decide_found-Took faults now b approve by note a h = ground arith

decide_award-Took :
    (faults : Call → Option Text) (now : ℤ) (b : Books) (id : Text) (approve : Bool)
    (by note : Text) {b' : Books} {a' : Award}
    → decide_award faults now b id approve by note ≡ ok (b', a')
    → Took now b id approve by note b' a'
unfolding decide_award
decide_award-Took faults now b id approve by note h =
    elim (reading (get_award faults b.awards id)) [
      | read a e ↦
          let (was, now_is, books) =
            decide_found-Took faults now b approve by note a (rw (e, decide_award) at h) in
          record {
            a = a;
            held = get_award-ok faults b.awards id e;
            was = was;
            now_is = now_is;
            books = books;
          }
      | missing x e gone ↦ absurd (cc (rw (e, gone, decide_award) at h))
      | failed x e other ↦ absurd (cc (rw (e, other, decide_award) at h))
      | crashed e ↦ absurd (cc (rw (e, decide_award) at h))
    ]

decided-again :
    (later : ℤ) (b : Books) (id : Text) (again : Bool) (by note : Text) (a : Award) (approve : Bool)
    → find b.awards id ≡ some a
    → a.status ≡ (if approve then approved else rejected)
    → decide_award sound later b id again by note ≡ err award_already_decided
unfolding decide_award get_award get decide_found
decided-again later b id again by note a true h s = rw (h, s, decide_award) refl
decided-again later b id again by note a false h s = rw (h, s, decide_award) refl

-- Where a decision succeeds, the award was there and still proposed, and it is replaced by the decided
-- one under its ID while every other award stays; deciding it again then fails, whichever way, with the
-- error that it is already decided. Awards must be stored under their IDs, as they then still are.
pub decide_award_final :
    (faults : Call → Option Text) (now later : ℤ) (b : Books) (id : Text) (approve again : Bool)
    (by note by' note' : Text) {b' : Books} {a' : Award}
    → IsKeyed b.awards
    → decide_award faults now b id approve by note ≡ ok (b', a')
    → ((a : Award) × (find b.awards id ≡ some a)
        × (a.status ≡ proposed)
        × (a' ≡ decided now approve by note a))
      × ((other : Text)
          → find b'.awards other ≡ (if text_eq id other then some a' else find b.awards other))
      × (decide_award sound later b' id again by' note' ≡ err award_already_decided)
      × IsKeyed b'.awards
decide_award_final faults now later b id approve again by note by' note' {b'} {a'} k h =
    let t = decide_award-Took faults now b id approve by note h in
    let own : t.a.id ≡ id = find-IsKeyed b.awards id k t.held in
    let after : (other : Text)
        → find b'.awards other ≡ (if text_eq id other then some a' else find b.awards other) =
      λ other. rw (t.books, own) (find-put b.awards id a' other) in
    let here : find b'.awards id ≡ some a' = after id ∙ (rw (text_eq_refl id) refl) in
    (
      (t.a, t.held, t.was, t.now_is),
      after,
      decided-again later b' id again by' note' a' approve here (rw t.now_is refl),
      rw (t.books, own) (put-IsKeyed b.awards id a' k (rw t.now_is own)),
    )
