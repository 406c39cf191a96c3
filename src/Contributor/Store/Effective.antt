-- ===== src/Contributor/Store/Effective.antt =====
-- ProgramFor of contributor/document_store.go finds the latest effective program.
use blue.Prelude.{
  Text, text_lt, text_lt_trans, text_lt_irrefl, text_lt_total, ◌≡◌, refl, sym, ap, ◌∙◌, Bool, true,
  false, not, ◌||◌, List, [], ◌∷◌, Option, none, some, All, Bool-cases, inl, inr, ◌⊎◌, arith,
}
use mathlib.Core.Path.{subst}
use blue.Contributor.Month.{before}
use blue.Contributor.Program.{Program}
use blue.Contributor.Store.{latest}

-- A program that is effective in a month and not later than another one.
abbrev pub outdated_by : Text → Program → Program → Bool
outdated_by m p q = before m q.effective_from || not (before p.effective_from q.effective_from)

-- The program is one of the list.
pub data Among (p : Program) : List Program → Type 0 where
  here : {ps : List Program} → Among p (p ∷ ps)
  further : {q : Program} {ps : List Program} → Among p ps → Among p (q ∷ ps)

the_program : {a b : Program} → ◌≡◌ {A = Option Program} (some a) (some b) → a ≡ b
the_program h = cc h

older : {b p q : Program} {ps : List Program} → (b ≡ p ⊎ Among p ps) → (b ≡ p ⊎ Among p (q ∷ ps))
older (inl e) = inl e
older (inr a) = inr (further a)

first : {p q : Program} {ps : List Program} → (q ≡ p ⊎ Among p ps) → Among p (q ∷ ps)
first {q = q} {ps = ps} (inl e) = subst (λ x. Among x (q ∷ ps)) e (here {ps = ps})
first (inr a) = further a

newest : {b p q : Program} {ps : List Program} → (q ≡ p ⊎ Among p ps) → (b ≡ p ⊎ Among p (q ∷ ps))
newest s = inr (first s)

or_true : (a : Bool) {b : Bool} → b ≡ true → (a || b) ≡ true
or_true a h = ground arith

-- `a` is not before `b`, as the code tests it.
abbrev NoEarlier : Text → Text → Type 0
NoEarlier a b = not (before a b) ≡ true

NoEarlier-refl : (a : Text) → NoEarlier a a
unfolding before
NoEarlier-refl a = rw (text_lt_irrefl a) refl

NoEarlier-before : (a b c : Text) → before a b ≡ true → NoEarlier c b → NoEarlier c a
unfolding before
NoEarlier-before a b c h k = elim (Bool-cases (text_lt c a)) [
  | inl e ↦ absurd (ground (arith, text_lt_trans c a b e h))
  | inr e ↦ rw e refl
]

NoEarlier-trans : (a b c : Text) → NoEarlier b c → NoEarlier a b → NoEarlier a c
unfolding before
NoEarlier-trans a b c h k = elim (Bool-cases (text_lt a c)) [
  | inr e ↦ rw e refl
  | inl e ↦ elim (Bool-cases (text_lt b a)) [
    | inl less ↦ absurd (ground (arith, text_lt_trans b a c less e))
    | inr more ↦
        let same : a ≡ b = text_lt_total a b (ground arith) more in
        absurd (cc (h, ap (λ (t : Text). text_lt t c) same, e))
  ]
]

record Latest (m : Text) (b p : Program) (ps : List Program) : Type 0 where
  source : b ≡ p ⊎ Among p ps
  not_older : NoEarlier p.effective_from b.effective_from
  effective : before m p.effective_from ≡ false
  best : All (λ q. outdated_by m p q ≡ true) ps

latest-Latest :
    (m : Text) (b p : Program) (ps : List Program)
    → before m b.effective_from ≡ false
    → latest m (some b) ps ≡ some p
    → Latest m b p ps
unfolding latest
latest-Latest m b p [] eff h =
    let same = the_program h in
    record {
      source = inl same;
      not_older = rw same (NoEarlier-refl p.effective_from);
      effective = ap (λ (x : Program). before m x.effective_from) (sym same) ∙ eff;
      best = tt;
    }
latest-Latest m b p (q ∷ ps) eff h = elim (Bool-cases (before m q.effective_from)) [
  | inl late ↦
      let l = latest-Latest m b p ps eff (rw late at h) in
      record {
        source = older l.source;
        not_older = l.not_older;
        effective = l.effective;
        best = (rw late refl, l.best);
      }
  | inr early ↦ elim (Bool-cases (before b.effective_from q.effective_from)) [
    | inl newer ↦
        let l = latest-Latest m q p ps early (rw (early, newer) at h) in
        record {
          source = newest l.source;
          not_older =
              NoEarlier-before b.effective_from q.effective_from p.effective_from newer l.not_older;
          effective = l.effective;
          best = (or_true (before m q.effective_from) l.not_older, l.best);
        }
    | inr not_newer ↦
        let l = latest-Latest m b p ps eff (rw (early, not_newer) at h) in
        record {
          source = older l.source;
          not_older = l.not_older;
          effective = l.effective;
          best = (
            or_true (before m q.effective_from) (
                NoEarlier-trans p.effective_from b.effective_from q.effective_from
                  (rw not_newer refl) l.not_older),
            l.best,
          );
        }
  ]
]

-- The program that is found is one of the programs, is effective in the month, and every program that
-- is effective in the month is not later than it.
pub latest_exact :
    (m : Text) (p : Program) (ps : List Program)
    → latest m none ps ≡ some p
    → Among p ps × (before m p.effective_from ≡ false) × All (λ q. outdated_by m p q ≡ true) ps
unfolding latest
latest_exact m p [] h = absurd (cc h)
latest_exact m p (q ∷ ps) h = elim (Bool-cases (before m q.effective_from)) [
  | inl late ↦
      let (among, effective, best) = latest_exact m p ps (rw late at h) in
      (further among, effective, (rw late refl, best))
  | inr early ↦
      let l = latest-Latest m q p ps early (rw early at h) in
      (first l.source, l.effective, (or_true (before m q.effective_from) l.not_older, l.best))
]
