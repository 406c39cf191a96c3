-- ===== src/Contributor/Month.antt =====
-- contributor/month.go. A Month is the text that the source keeps; a time.Time that is the first
-- instant of a month is its year and month.
pub mod Canonical
pub mod Order
pub mod Shift
pub mod Succession
use blue.Prelude.{
  ℕ, zero, suc, ◌+◌, ◌-◌, ◌*◌, ◌/◌, ◌%◌, Text, text_eq, text_lt, ℤ, pos, negsuc, ◌+ℤ◌, ◌*ℤ◌, Bool,
  ◌&&◌, Option, none, some, [], ◌∷◌, ◌++◌, leb, ◌==◌, if◌then◌else◌, not, is_digit, decimal,
}
use blue.Contributor.Result.{
  Result, ok, err, panic, ◌>>=◌, month_not_parsed, month_not_canonical, refuse,
}

-- Midnight UTC on the first day of a month; `month` counts from 0.
pub record MonthStart : Type 0 where
  pub year : ℤ
  pub month : ℕ

-- The checks that time.Parse makes of the layout 2006-01, on the seven bytes of a text.
unfoldable pub is_month_text : ℕ → ℕ → ℕ → ℕ → ℕ → ℕ → ℕ → Bool
is_month_text a b c d dash m n =
    is_digit a
    && is_digit b
    && is_digit c
    && is_digit d
    && dash == b'-'
    && is_digit m
    && is_digit n
    && leb 1 ((m - 48) * 10 + (n - 48))
    && leb ((m - 48) * 10 + (n - 48)) 12

abbrev pub year_value : ℕ → ℕ → ℕ → ℕ → ℕ
year_value a b c d = (a - 48) * 1000 + (b - 48) * 100 + (c - 48) * 10 + (d - 48)

-- time.Parse with the layout 2006-01: four digits, a dash and a month of two digits, no more.
unfoldable pub parse_time : Text → Option MonthStart
parse_time (a ∷ b ∷ c ∷ d ∷ dash ∷ m ∷ n ∷ []) =
    if is_month_text a b c d dash m n
    then some (record { year = pos (year_value a b c d); month = (m - 48) * 10 + (n - 48) - 1 })
    else none
parse_time _ = none

-- A number padded with zeros to four digits.
unfoldable pub four_digits : ℕ → Text
unfolding decimal
four_digits y =
    decimal (y / 10000) (y / 10000)
    ++ (48 + y / 1000 % 10) ∷ (48 + y / 100 % 10) ∷ (48 + y / 10 % 10) ∷ (48 + y % 10) ∷ []

unfoldable pub format_year : ℤ → Text
unfolding four_digits
format_year (pos y) = four_digits y
format_year (negsuc y) = b'-' ∷ four_digits (suc y)

-- MonthOf, at the first instant of a month.
unfoldable pub month_of : MonthStart → Text
unfolding format_year
month_of t = format_year t.year ++ b'-' ∷ (48 + (t.month + 1) / 10) ∷ (48 + (t.month + 1) % 10) ∷ []

-- Month.Validate
unfoldable pub validate_month : Text → Result (Unit {0})
validate_month m = elim (parse_time m) [
  | none ↦ err (month_not_parsed m)
  | some t ↦ refuse (not (text_eq (month_of t) m)) (month_not_canonical m)
]

-- ParseMonth
unfoldable pub parse_month : Text → Result Text
parse_month s = validate_month s >>= λ _. ok s

-- Month.Time
unfoldable pub month_time : Text → Result MonthStart
month_time m = elim (parse_time m) [ none ↦ panic | some t ↦ ok t ]

-- The number of months from January of the year 0 to a month, and back.
abbrev pub month_index : MonthStart → ℤ
month_index t = t.year *ℤ pos 12 +ℤ pos t.month

unfoldable pub month_at : ℤ → MonthStart
month_at (pos k) = record { year = pos (k / 12); month = k % 12 }
month_at (negsuc k) = record { year = negsuc (k / 12); month = 11 - k % 12 }

-- t.AddDate(0, n, 0) on the first of a month: time.Date carries months into years. It counts seconds in 64
-- bits, which wrap around beyond some 2.9e11 years: this is for fewer than 2^40 months.
unfoldable pub add_months : MonthStart → ℤ → MonthStart
add_months t n = month_at (month_index t +ℤ n)

-- Month.Add
unfoldable pub add_month : Text → ℤ → Result Text
add_month m n = do t ← month_time m; ok (month_of (add_months t n))

-- Month.Next and Month.Prev
unfoldable pub next_month : Text → Result Text
next_month m = add_month m (pos 1)

unfoldable pub prev_month : Text → Result Text
prev_month m = add_month m (negsuc 0)

-- Month.Before
unfoldable pub before : Text → Text → Bool
before m o = text_lt m o
