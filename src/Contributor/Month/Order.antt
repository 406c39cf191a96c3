-- ===== src/Contributor/Month/Order.antt =====
-- Month.Before of contributor/month.go compares texts, and so months in time.
use blue.Prelude.{
  ℕ, ◌+◌, ◌*◌, ◌/◌, ◌%◌, ◌<◌, ◌≡◌, refl, ◌∙◌, Text, text_lt, pos, ltb, ltb_ℤ, Bool, ◌==◌,
  if◌then◌else◌, ◌*ℤ◌, ◌+ℤ◌, some, [], ◌∷◌, arith,
}
use blue.Contributor.Month.{MonthStart, parse_time, month_of, month_index, format_year, before}
use blue.Contributor.Month.Canonical.{
  Bounds, month_start, four_digits_short, month_of-parse_time, parse_time-Bounds,
}

pub month_index-month_start : (y k : ℕ) → month_index (month_start y k) ≡ pos (y * 12 + k)
unfolding ◌+ℤ◌ ◌*ℤ◌
month_index-month_start y k = ground arith

-- The two digits of a month.
month_part_lt :
    (a b : ℕ)
    → a < 12
    → b < 12
    → text_lt
        ((48 + (a + 1) / 10) ∷ (48 + (a + 1) % 10) ∷ [])
        ((48 + (b + 1) / 10) ∷ (48 + (b + 1) % 10) ∷ [])
      ≡ ltb a b
unfolding text_lt
month_part_lt a b ha hb = ground arith

digit_lt :
    (p q : ℕ) (s t : Text)
    → text_lt ((48 + p) ∷ s) ((48 + q) ∷ t) ≡ (if p == q then text_lt s t else ltb p q)
unfolding text_lt
digit_lt p q s t = ground arith

-- One more digit refines the order of two numbers.
carry_lt :
    (x x' d y y' e : ℕ) (rest : Bool)
    → x ≡ x' * 10 + d
    → y ≡ y' * 10 + e
    → d < 10
    → e < 10
    → (if x' == y' then (if d == e then rest else ltb d e) else ltb x' y')
      ≡ (if x == y then rest else ltb x y)
carry_lt x x' d y y' e rest hx hy hd he = ground arith

-- Numbers as four digits, followed by what decides among equal ones.
year_part_lt :
    (x y : ℕ) (s t : Text)
    → x < 10000
    → y < 10000
    → text_lt
        ((48 + x / 1000 % 10) ∷ (48 + x / 100 % 10) ∷ (48 + x / 10 % 10) ∷ (48 + x % 10) ∷ s)
        ((48 + y / 1000 % 10) ∷ (48 + y / 100 % 10) ∷ (48 + y / 10 % 10) ∷ (48 + y % 10) ∷ t)
      ≡ (if x == y then text_lt s t else ltb x y)
year_part_lt x y s t hx hy =
    let rest : Bool = text_lt s t in
    let ones : Bool = if x % 10 == y % 10 then rest else ltb (x % 10) (y % 10) in
    let tens : Bool =
      if x / 10 % 10 == y / 10 % 10 then ones else ltb (x / 10 % 10) (y / 10 % 10) in
    simp digit_lt (
      carry_lt (x / 100) (x / 1000 % 10) (x / 100 % 10) (y / 100) (y / 1000 % 10) (y / 100 % 10)
        tens (omega arith) (omega arith) (omega arith) (omega arith)
      ∙ carry_lt (x / 10) (x / 100) (x / 10 % 10) (y / 10) (y / 100) (y / 10 % 10) ones
          (omega arith) (omega arith) (omega arith) (omega arith)
      ∙ carry_lt x (x / 10) (x % 10) y (y / 10) (y % 10) rest (omega arith) (omega arith)
          (omega arith) (omega arith))

dash_lt : (s t : Text) → text_lt (b'-' ∷ s) (b'-' ∷ t) ≡ text_lt s t
unfolding text_lt
dash_lt s t = refl

before-month_start :
    (x y a b : ℕ)
    → x < 10000
    → y < 10000
    → a < 12
    → b < 12
    → before (month_of (month_start x a)) (month_of (month_start y b))
      ≡ ltb (x * 12 + a) (y * 12 + b)
unfolding before month_of format_year
before-month_start x y a b hx hy ha hb =
    rw (four_digits_short x hx, four_digits_short y hy, year_part_lt x y _ _ hx hy)
      (rw dash_lt (rw (month_part_lt a b ha hb) (ground arith)))

before-Bounds :
    (s t : MonthStart) (bs : Bounds s) (bt : Bounds t)
    → before (month_of s) (month_of t) ≡ ltb_ℤ (month_index s) (month_index t)
before-Bounds s t bs bt =
    rw
      (
        bs.is_start,
        bt.is_start,
        month_index-month_start bs.y bs.k,
        month_index-month_start bt.y bt.k,
      )
      (before-month_start bs.y bt.y bs.k bt.k bs.year_fits bt.year_fits bs.month_fits bt.month_fits
        ∙ ground arith)

-- On months that parse, Before is the order of their counts of months.
pub before_exact :
    (m o : Text) {s t : MonthStart}
    → parse_time m ≡ some s
    → parse_time o ≡ some t
    → before m o ≡ ltb_ℤ (month_index s) (month_index t)
before_exact m o {s} {t} hm ho =
    rw (← month_of-parse_time m s hm, ← month_of-parse_time o t ho)
      (before-Bounds s t (parse_time-Bounds m s hm) (parse_time-Bounds o t ho))
