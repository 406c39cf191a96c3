-- ===== src/Contributor/Month/Succession.antt =====
-- Months in turn: Prev and Before of contributor/month.go.
use blue.Prelude.{
  ℕ, zero, suc, ◌+◌, ◌*◌, ◌<◌, ◌≡◌, sym, ap, ◌∙◌, Text, text_lt_trans, ℤ, pos, negsuc, ltb_ℤ, ◌+ℤ◌,
  int_laws, true, Option, some, Option-cases, inl, inr, arith,
}
use blue.Contributor.Result.{Result, ok}
use blue.Contributor.Month.{MonthStart, parse_time, validate_month, month_index, prev_month, before}
use blue.Contributor.Month.Canonical.{parse_time-Bounds, validate_month_exact}
use blue.Contributor.Month.Order.{month_index-month_start, before_exact}
use blue.Contributor.Month.Shift.{add_month_inside, add_month_outside}

pub validate_month-parses :
    (m : Text) → validate_month m ≡ ok tt → (t : MonthStart) × (parse_time m ≡ some t)
validate_month-parses m h = elim (Option-cases (parse_time m)) [
  | inl e ↦ absurd (cc (rw (validate_month_exact m, e) at h))
  | inr (t, e) ↦ (t, e)
]

-- A month is a count of months.
pub counted :
    (m : Text) (t : MonthStart)
    → parse_time m ≡ some t
    → (j : ℕ) × (month_index t ≡ pos j) × (j < 120000)
counted m t h =
    let b = parse_time-Bounds m t h in
    (
      b.y * 12 + b.k,
      ap month_index b.is_start ∙ month_index-month_start b.y b.k,
      omega (arith, b.year_fits, b.month_fits),
    )

same_result : {p q : Text} → ◌≡◌ {A = Result Text} (ok p) (ok q) → p ≡ q
same_result h = cc h

same_start : {t u : MonthStart} → ◌≡◌ {A = Option MonthStart} (some t) (some u) → t ≡ u
same_start h = cc h

before_zero : (j : ℕ) → ¬ (pos 0 +ℤ negsuc 0 ≡ pos j)
unfolding ◌+ℤ◌
before_zero j h = cc h

one_less : (j : ℕ) → pos (suc j) +ℤ negsuc 0 ≡ pos j
one_less j = omega int_laws

-- The month before a month is one less, where both are months.
pub prev_month-index :
    (m p : Text) {t u : MonthStart}
    → parse_time m ≡ some t
    → parse_time p ≡ some u
    → prev_month m ≡ ok p
    → (j : ℕ) × (month_index t ≡ pos (suc j)) × (month_index u ≡ pos j)
unfolding prev_month
prev_month-index m p {t} {u} hm hp h = let (j, e, lt) = counted m t hm in from j e lt
  where
    from :
        (j : ℕ)
        → month_index t ≡ pos j
        → j < 120000
        → (i : ℕ) × (month_index t ≡ pos (suc i)) × (month_index u ≡ pos i)
    from zero e lt =
        let (q, made, gone) =
          add_month_outside m t (negsuc 0) hm
            (λ (i, f, _). before_zero i (ap (λ z. z +ℤ negsuc 0) (sym e) ∙ f)) in
        absurd (cc (gone, hp, same_result (sym h ∙ made)))
    from (suc j) e lt =
        let (q, v, made, parses, index) =
          add_month_inside m t (negsuc 0) j hm (ap (λ z. z +ℤ negsuc 0) e ∙ one_less j)
            (omega arith) in
        (
          j,
          e,
          ap month_index (same_start (sym hp ∙ ap parse_time (same_result (sym h ∙ made)) ∙ parses))
              ∙ index,
        )

index_before : (i j : ℕ) {y z : ℤ} → y ≡ pos i → z ≡ pos j → i < j → ltb_ℤ y z ≡ true
index_before i j hy hz lt = rw (hy, hz) (ground arith)

before_index : (i j : ℕ) {y z : ℤ} → y ≡ pos i → z ≡ pos j → ltb_ℤ y z ≡ true → i < j
before_index i j hy hz h = let h' : ltb_ℤ (pos i) (pos j) ≡ true = rw (hy, hz) at h in ground arith

-- The month before a month comes before it.
pub before-prev_month :
    (m p : Text)
    → validate_month m ≡ ok tt
    → validate_month p ≡ ok tt
    → prev_month m ≡ ok p
    → before p m ≡ true
before-prev_month m p vm vp h =
    let (t, hm) = validate_month-parses m vm in
    let (u, hp) = validate_month-parses p vp in
    let (j, et, eu) = prev_month-index m p hm hp h in
    before_exact p m hp hm ∙ index_before j (suc j) eu et (omega arith)

-- No month lies between a month and the one before it.
pub no_month_between :
    (m p k : Text)
    → validate_month m ≡ ok tt
    → validate_month p ≡ ok tt
    → validate_month k ≡ ok tt
    → prev_month m ≡ ok p
    → before p k ≡ true
    → before k m ≡ true
    → ⊥
no_month_between m p k vm vp vk h pk km =
    let (t, hm) = validate_month-parses m vm in
    let (u, hp) = validate_month-parses p vp in
    let (w, hk) = validate_month-parses k vk in
    let (j, et, eu) = prev_month-index m p hm hp h in
    let (i, ew, _) = counted k w hk in
    let first : j < i = before_index j i eu ew (sym (before_exact p k hp hk) ∙ pk) in
    let second : i < suc j = before_index i (suc j) ew et (sym (before_exact k m hk hm) ∙ km) in
    omega arith

pub before_trans : (a b c : Text) → before a b ≡ true → before b c ≡ true → before a c ≡ true
unfolding before
before_trans a b c h k = text_lt_trans a b c h k
