-- ===== src/Contributor/Admin/Proposals.antt =====
-- ProposeAward of contributor/admin.go, and a decision on the award that it stored.
use blue.Prelude.{
  ◌≡◌, refl, sym, ap, ◌∙◌, Text, text_eq_refl, is_empty, Bool, true, false, ◌∷◌, ℤ, Option, none,
  some, arith,
}
use blue.Document.{Collection, find, put}
use blue.Document.Laws.{find-cons_self}
use blue.Contributor.Result.{ok, >>=-eq-ok, >>-eq-ok}
use blue.Contributor.Month.{validate_month}
use blue.Contributor.Program.{Program, expiration_month}
use blue.Contributor.Award.{Award, proposed, validate_award}
use blue.Contributor.Store.{
  Books, Call, get, set, create, get_award, set_award, create_award, program_effective,
}
use blue.Contributor.Ledger.Reads.{sound}
use blue.Contributor.Admin.{
  ProposeAwardRequest, decide_found, decide_award, decided, propose_award, resolve_splits,
  effective_program,
}

decided-valid :
    (now : ℤ) (approve : Bool) (by note : Text) (a : Award)
    → validate_award a ≡ ok tt
    → validate_award (decided now approve by note a) ≡ ok tt
unfolding validate_award
decided-valid now true by note a h = ground arith
decided-valid now false by note a h = ground arith

-- What a proposal that succeeded stored.
record Proposed (faults : Call → Option Text) (fresh : Text) (b : Books) (req : ProposeAwardRequest)
    (b' : Books) (id : Text) : Type 0 where
  a : Award
  p : Program
  effective : program_effective faults b.programs req.activation ≡ ok p
  policy : a.policy_version ≡ p.version
  expires : expiration_month p req.activation ≡ ok a.expiration
  splits : resolve_splits faults b req.splits ≡ ok a.splits
  status : a.status ≡ proposed
  own : a.id ≡ fresh
  new : id ≡ fresh
  valid : validate_award a ≡ ok tt
  free : find b.awards fresh ≡ none
  books : b' ≡ record b { awards = (fresh, a) ∷ b.awards }

create_award-ok :
    (faults : Call → Option Text) (fresh : Text) (db : Collection Award) (a : Award)
    {next : Collection Award} {id : Text}
    → create_award faults fresh db a ≡ ok (next, id)
    → (validate_award (record a { id = fresh }) ≡ ok tt)
      × (find db fresh ≡ none)
      × (next ≡ (fresh, record a { id = fresh }) ∷ db)
      × (id ≡ fresh)
unfolding create_award create
create_award-ok faults fresh db a h = ground arith

effective-ok :
    (faults : Call → Option Text) (b : Books) (m : Text) {p : Program}
    → effective_program faults b m ≡ ok p
    → program_effective faults b.programs m ≡ ok p
effective-ok faults b m h = ground arith

propose_award-Proposed :
    (faults : Call → Option Text) (fresh : Text) (now : ℤ) (b : Books) (req : ProposeAwardRequest)
    {b' : Books} {id : Text}
    → propose_award faults fresh now b req ≡ ok (b', id)
    → Proposed faults fresh b req b' id
unfolding propose_award
propose_award-Proposed faults fresh now b req h =
    let (month, h1) = >>-eq-ok (validate_month req.activation) _ h in
    let (p, e2, h2) = >>=-eq-ok (effective_program faults b req.activation) _ h1 in
    let (splits, e3, h3) = >>=-eq-ok (resolve_splits faults b req.splits) _ h2 in
    let (m, e4, h4) = >>=-eq-ok (expiration_month p req.activation) _ h3 in
    let ((next, made), e5, h5) = >>=-eq-ok (create_award faults fresh b.awards _) _ h4 in
    let (valid, free, kept, new) = create_award-ok faults fresh b.awards _ e5 in
    record {
      a = _;
      p = p;
      effective = effective-ok faults b req.activation e2;
      policy = refl;
      expires = e4;
      splits = e3;
      status = refl;
      own = refl;
      new = cc (h5, new);
      valid = valid;
      free = free;
      books = cc (h5, kept);
    }

decide_award-proposed :
    (later : ℤ) (b : Books) (id : Text) (approve : Bool) (by note : Text) (a : Award)
    → find b.awards id ≡ some a
    → a.status ≡ proposed
    → is_empty a.id ≡ false
    → validate_award a ≡ ok tt
    → decide_award sound later b id approve by note
      ≡ ok (
        record b { awards = put b.awards a.id (decided later approve by note a) },
        decided later approve by note a,
      )
unfolding decide_award get_award get decide_found set_award set
decide_award-proposed later b id approve by note a h s full v =
    rw (h, s, full, decided-valid later approve by note a v, decide_award, decide_found) refl

put-first :
    (db : Collection Award) (id : Text) (a a' : Award) → put ((id, a) ∷ db) id a' ≡ (id, a') ∷ db
unfolding put
put-first db id a a' = rw (text_eq_refl id) refl

-- A proposal that succeeded, with a new ID that is not empty, has added one award under that ID and no
-- other: proposed, with its expiration and its policy version from the program that is effective in its
-- activation month, and with the splits its handles resolve to. Where no call fails it can then be
-- decided, either way, and the decided award replaces it.
pub propose_award-decide_award :
    (faults : Call → Option Text) (fresh : Text) (now later : ℤ) (b : Books)
    (req : ProposeAwardRequest) (approve : Bool) (by note : Text) {b' : Books} {id : Text}
    → is_empty fresh ≡ false
    → propose_award faults fresh now b req ≡ ok (b', id)
    → (a : Award) × (p : Program) × (id ≡ fresh)
      × (find b.awards id ≡ none)
      × (b' ≡ record b { awards = (id, a) ∷ b.awards })
      × (a.status ≡ proposed)
      × (program_effective faults b.programs req.activation ≡ ok p)
      × (expiration_month p req.activation ≡ ok a.expiration)
      × (a.policy_version ≡ p.version)
      × (resolve_splits faults b req.splits ≡ ok a.splits)
      × (decide_award sound later b' id approve by note
          ≡ ok (
            record b { awards = (id, decided later approve by note a) ∷ b.awards },
            decided later approve by note a,
          ))
propose_award-decide_award faults fresh now later b req approve by note {b'} {id} full h =
    let t = propose_award-Proposed faults fresh now b req h in
    let own : t.a.id ≡ id = t.own ∙ sym t.new in
    let full' : is_empty t.a.id ≡ false = rw t.own full in
    let books : b' ≡ record b { awards = (id, t.a) ∷ b.awards } =
      t.books ∙ ap (λ (k : Text). record b { awards = (k, t.a) ∷ b.awards }) (sym t.new) in
    let next = decided later approve by note t.a in
    let replaced : put ((id, t.a) ∷ b.awards) t.a.id next ≡ (id, next) ∷ b.awards =
      ap (λ (k : Text). put ((id, t.a) ∷ b.awards) k next) own ∙ put-first b.awards id t.a next in
    (
      t.a,
      t.p,
      t.new,
      rw t.new t.free,
      books,
      t.status,
      t.effective,
      t.expires,
      t.policy,
      t.splits,
      rw books (
            decide_award-proposed later (record b { awards = (id, t.a) ∷ b.awards }) id approve by
              note t.a (find-cons_self b.awards id t.a) t.status full' t.valid)
          ∙ ap (λ (as' : Collection Award). ok (record b { awards = as' }, next)) replaced,
    )
