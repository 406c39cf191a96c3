-- ===== src/Contributor/Month/Canonical.antt =====
-- Which texts Month.Validate of contributor/month.go takes for months, and that they are printed
-- back unchanged.
use blue.Prelude.{
  decimal, ℕ, ◌+◌, ◌-◌, ◌*◌, ◌/◌, ◌%◌, ◌≤◌, ◌<◌, ◌≡◌, refl, Text, text_eq_refl, pos, none, some,
  true, Option-cases, length, inl, inr, ◌∙◌, [], ◌∷◌, arith,
}
use mathlib.Core.Path.{ap₂}
use blue.Contributor.Result.{ok, err, month_not_parsed}
use blue.Contributor.Month.{
  MonthStart, parse_time, four_digits, month_of, validate_month, is_month_text, year_value,
  format_year,
}

decimal_zero : (n : ℕ) → n ≡ 0 → decimal n n ≡ []
unfolding decimal
decimal_zero n e = ground arith

-- Below the year 10000 a year has four digits.
pub four_digits_short :
    (y : ℕ)
    → y < 10000
    → four_digits y
      ≡ (48 + y / 1000 % 10) ∷ (48 + y / 100 % 10) ∷ (48 + y / 10 % 10) ∷ (48 + y % 10) ∷ []
unfolding four_digits
four_digits_short y h = rw (decimal_zero (y / 10000) (omega arith))

pub record AreDigits (a b c d dash m n : ℕ) : Type 0 where
  pub a_digit : (48 ≤ a) × (a ≤ 57)
  pub b_digit : (48 ≤ b) × (b ≤ 57)
  pub c_digit : (48 ≤ c) × (c ≤ 57)
  pub d_digit : (48 ≤ d) × (d ≤ 57)
  pub is_dash : dash ≡ b'-'
  pub m_digit : (48 ≤ m) × (m ≤ 57)
  pub n_digit : (48 ≤ n) × (n ≤ 57)
  pub in_year : (1 ≤ (m - 48) * 10 + (n - 48)) × ((m - 48) * 10 + (n - 48) ≤ 12)

is_month_text-AreDigits :
    (a b c d dash m n : ℕ) → is_month_text a b c d dash m n ≡ true → AreDigits a b c d dash m n
unfolding is_month_text
is_month_text-AreDigits a b c d dash m n h = record {
  a_digit = ground arith;
  b_digit = ground arith;
  c_digit = ground arith;
  d_digit = ground arith;
  is_dash = ground arith;
  m_digit = ground arith;
  n_digit = ground arith;
  in_year = ground arith;
}

-- The four digits of a number that is given by its digits.
digit_values :
    (p q r s : ℕ)
    → p ≤ 9
    → q ≤ 9
    → r ≤ 9
    → s ≤ 9
    → let y : ℕ = p * 1000 + q * 100 + r * 10 + s in
      (y / 1000 % 10 ≡ p) × (y / 100 % 10 ≡ q) × (y / 10 % 10 ≡ r) × (y % 10 ≡ s)
digit_values p q r s hp hq hr hs = omega arith

cons4 :
    {a b c d a' b' c' d' : ℕ}
    → a ≡ a'
    → b ≡ b'
    → c ≡ c'
    → d ≡ d'
    → ◌≡◌ {A = Text} (a ∷ b ∷ c ∷ d ∷ []) (a' ∷ b' ∷ c' ∷ d' ∷ [])
cons4 p q r s = cc

four_digits-year_value :
    (a b c d dash m n : ℕ)
    → AreDigits a b c d dash m n
    → four_digits (year_value a b c d) ≡ a ∷ b ∷ c ∷ d ∷ []
four_digits-year_value a b c d dash m n v =
    let (ea, eb, ec, ed) =
      digit_values (a - 48) (b - 48) (c - 48) (d - 48) (omega arith) (omega arith) (omega arith)
        (omega arith) in
    four_digits_short (year_value a b c d) (omega arith)
    ∙ cons4 (omega arith) (omega arith) (omega arith) (omega arith)

-- What a parsed text of seven bytes is, and the time that it stands for.
pub record Parsed (a b c d dash m n : ℕ) (t : MonthStart) : Type 0 where
  pub digits : AreDigits a b c d dash m n
  pub year : t.year ≡ pos (year_value a b c d)
  pub month : t.month ≡ (m - 48) * 10 + (n - 48) - 1

pub parse_time-Parsed :
    (a b c d dash m n : ℕ) (t : MonthStart)
    → parse_time (a ∷ b ∷ c ∷ d ∷ dash ∷ m ∷ n ∷ []) ≡ some t
    → Parsed a b c d dash m n t
unfolding parse_time
parse_time-Parsed a b c d dash m n t h = record {
  digits = is_month_text-AreDigits a b c d dash m n (ground arith);
  year = ground arith;
  month = ground arith;
}

month_of-Parsed :
    (a b c d dash m n : ℕ) (t : MonthStart)
    → Parsed a b c d dash m n t
    → month_of t ≡ a ∷ b ∷ c ∷ d ∷ dash ∷ m ∷ n ∷ []
unfolding month_of format_year
month_of-Parsed a b c d dash m n t v =
    let years = four_digits-year_value a b c d dash m n v.digits in
    let tens : 48 + (t.month + 1) / 10 ≡ m = omega arith in
    let ones : 48 + (t.month + 1) % 10 ≡ n = omega arith in
    rw (v.year, years) (cc (tens, ones, v.digits.is_dash))

-- A text that parses as a month is printed back unchanged.
pub month_of-parse_time : (m : Text) (t : MonthStart) → parse_time m ≡ some t → month_of t ≡ m
unfolding parse_time
month_of-parse_time (a ∷ b ∷ c ∷ d ∷ dash ∷ m ∷ n ∷ []) t h =
    month_of-Parsed a b c d dash m n t (parse_time-Parsed a b c d dash m n t h)
month_of-parse_time _ t h = ground arith

is_month_text_intro :
    (a b c d dash m n : ℕ) → AreDigits a b c d dash m n → is_month_text a b c d dash m n ≡ true
unfolding is_month_text
is_month_text_intro a b c d dash m n v = ground arith

printed_digits :
    (y k : ℕ)
    → k < 12
    → AreDigits
        (48 + y / 1000 % 10)
        (48 + y / 100 % 10)
        (48 + y / 10 % 10)
        (48 + y % 10)
        b'-'
        (48 + (k + 1) / 10)
        (48 + (k + 1) % 10)
printed_digits y k h = record {
  a_digit = omega arith;
  b_digit = omega arith;
  c_digit = omega arith;
  d_digit = omega arith;
  is_dash = refl;
  m_digit = omega arith;
  n_digit = omega arith;
  in_year = omega arith;
}

abbrev pub month_start : ℕ → ℕ → MonthStart
month_start y k = record { year = pos y; month = k }

-- Printing a month of a year below 10000 gives a text that parses to the same month.
pub parse_time-month_of :
    (y k : ℕ)
    → y < 10000
    → k < 12
    → parse_time (month_of (month_start y k)) ≡ some (month_start y k)
unfolding month_of format_year parse_time
parse_time-month_of y k hy hk =
    let year : year_value (48 + y / 1000 % 10) (48 + y / 100 % 10) (48 + y / 10 % 10) (48 + y % 10)
        ≡ y =
      omega arith in
    let month : (48 + (k + 1) / 10 - 48) * 10 + (48 + (k + 1) % 10 - 48) - 1 ≡ k = omega arith in
    rw (four_digits_short y hy, is_month_text_intro _ _ _ _ _ _ _ (printed_digits y k hk))
      (ap₂ (λ a b. some (month_start a b)) year month)

-- The months that time.Parse reads lie in the years from 0 to 9999.
pub record Bounds (t : MonthStart) : Type 0 where
  pub y : ℕ
  pub k : ℕ
  pub is_start : t ≡ month_start y k
  pub year_fits : y < 10000
  pub month_fits : k < 12

MonthStart-eq : (s t : MonthStart) → s.year ≡ t.year → s.month ≡ t.month → s ≡ t
MonthStart-eq s t p q = ground arith

Parsed-Bounds : (a b c d dash m n : ℕ) (t : MonthStart) → Parsed a b c d dash m n t → Bounds t
Parsed-Bounds a b c d dash m n t v = record {
  y = year_value a b c d;
  k = (m - 48) * 10 + (n - 48) - 1;
  is_start = MonthStart-eq _ _ v.year v.month;
  year_fits = omega (arith, v.digits);
  month_fits = omega (arith, v.digits);
}

pub parse_time-Bounds : (m : Text) (t : MonthStart) → parse_time m ≡ some t → Bounds t
unfolding parse_time
parse_time-Bounds (a ∷ b ∷ c ∷ d ∷ dash ∷ m ∷ n ∷ []) t h =
    Parsed-Bounds a b c d dash m n t (parse_time-Parsed a b c d dash m n t h)
parse_time-Bounds _ t h = absurd (cc h)

pub length-parse_time : (m : Text) (t : MonthStart) → parse_time m ≡ some t → length m ≡ 7
unfolding parse_time
length-parse_time (a ∷ b ∷ c ∷ d ∷ dash ∷ m ∷ n ∷ []) t h = refl
length-parse_time _ t h = absurd (cc h)

-- Validate accepts exactly the texts that time.Parse reads: its second check, that the text is
-- canonical, never fails.
pub validate_month_exact :
    (m : Text)
    → validate_month m ≡ elim (parse_time m) [ none ↦ err (month_not_parsed m) | some t ↦ ok tt ]
unfolding validate_month
validate_month_exact m = elim (Option-cases (parse_time m)) [
  | inl e ↦ rw (e, validate_month)
  | inr (t, e) ↦ rw (e, validate_month, month_of-parse_time m t e, text_eq_refl m)
]
