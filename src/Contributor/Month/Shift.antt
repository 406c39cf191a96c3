-- ===== src/Contributor/Month/Shift.antt =====
-- Month.Add, Next and Prev of contributor/month.go as arithmetic on the count of months.
use blue.Prelude.{
  pos_part, neg_part, ◌^◌, Option, Bool-cases, ltb, refl, if◌then◌else◌, decimal, ℕ, zero, suc, ◌+◌,
  ◌-◌, ◌*◌, ◌/◌, ◌%◌, ◌<◌, ◌≤◌, ◌≡◌, Text, ℤ, pos, negsuc, ◌+ℤ◌, ◌*ℤ◌, int_laws, none, some, [],
  ◌∷◌, arith, length, length-append, inl, inr, Option-cases,
}
use mathlib.Core.Option
use mathlib.Core.Path.{ap₂}
use native.Mathlib.Decide.{dec_lt}
use blue.Contributor.Result.{ok, ◌>>=◌}
use blue.Contributor.Month.{
  MonthStart, parse_time, month_of, month_index, month_at, format_year, four_digits, month_time,
  add_months, add_month, next_month, prev_month,
}
use blue.Contributor.Month.Canonical.{
  Bounds, month_of-parse_time, month_start, length-parse_time, parse_time-month_of,
  parse_time-Bounds,
}
use blue.Contributor.Month.Order.{month_index-month_start}

-- A count of months in the years from 0 to 9999 prints to a text that parses back.
parse_time-month_at :
    (j : ℕ) → j < 120000 → parse_time (month_of (month_at (pos j))) ≡ some (month_at (pos j))
unfolding month_at
parse_time-month_at j h = parse_time-month_of (j / 12) (j % 12) (omega arith) (omega arith)

month_index-month_at : (z : ℤ) → month_index (month_at z) ≡ z
unfolding month_at ◌+ℤ◌ ◌*ℤ◌
month_index-month_at (pos j) = ground arith
month_index-month_at (negsuc j) = ground arith

decimal_pos : (f n : ℕ) → 0 < n → n ≤ f → 1 ≤ length (decimal f n)
unfolding decimal
decimal_pos zero n p h = absurd (omega arith)
decimal_pos (suc f) n p h = ground (arith, length-append (decimal f (n / 10)) ((48 + n % 10) ∷ []))

-- A year from 10000 on takes more than four digits.
length-four_digits : (y : ℕ) → 10000 ≤ y → 5 ≤ length (four_digits y)
unfolding four_digits
length-four_digits y h = omega (
  arith,
  decimal_pos (y / 10000) (y / 10000),
  length-append (decimal (y / 10000) (y / 10000))
      ((48 + y / 1000 % 10) ∷ (48 + y / 100 % 10) ∷ (48 + y / 10 % 10) ∷ (48 + y % 10) ∷ []),
)

four_digits-length-ge : (y : ℕ) → 4 ≤ length (four_digits y)
unfolding four_digits
four_digits-length-ge y = omega (
  arith,
  length-append (decimal (y / 10000) (y / 10000))
      ((48 + y / 1000 % 10) ∷ (48 + y / 100 % 10) ∷ (48 + y / 10 % 10) ∷ (48 + y % 10) ∷ []),
)

-- Outside the years from 0 to 9999 the printed month is too long.
not_lt_of_far : (j : ℕ) → ¬ ((i : ℕ) × (pos j ≡ pos i) × (i < 120000)) → 120000 ≤ j
not_lt_of_far j far = elim (dec_lt j 120000) [
  | yes p ↦ absurd (far (j, refl, p))
  | no p ↦ omega arith
]

length-month_of_far :
    (z : ℤ) → ¬ ((j : ℕ) × (z ≡ pos j) × (j < 120000)) → 8 ≤ length (month_of (month_at z))
unfolding month_of month_at format_year
length-month_of_far (pos j) far = omega (
  arith,
  length-append (four_digits (j / 12))
      (b'-' ∷ (48 + (j % 12 + 1) / 10) ∷ (48 + (j % 12 + 1) % 10) ∷ []),
  length-four_digits (j / 12),
  not_lt_of_far j far,
)
length-month_of_far (negsuc j) far = omega (
  arith,
  length-append (b'-' ∷ four_digits (suc (j / 12)))
      (b'-' ∷ (48 + (11 - j % 12 + 1) / 10) ∷ (48 + (11 - j % 12 + 1) % 10) ∷ []),
  four_digits-length-ge (suc (j / 12)),
)

add_month-eq :
    (m : Text) (n : ℤ) (t : MonthStart)
    → parse_time m ≡ some t
    → add_month m n ≡ ok (month_of (month_at (month_index t +ℤ n)))
unfolding add_month month_time add_months
add_month-eq m n t h = rw (h, month_time)

too_long : (m : Text) → 8 ≤ length m → parse_time m ≡ none
too_long m h = elim (Option-cases (parse_time m)) [
  | inl e ↦ e
  | inr (t, e) ↦ absurd (omega (arith, length-parse_time m t e))
]

-- Month.Add takes a month that parses to the month n months away, printed so that it parses again,
-- where that month lies in the years from 0 to 9999.
pub add_month_inside :
    (m : Text) (t : MonthStart) (n : ℤ) (j : ℕ)
    → parse_time m ≡ some t
    → month_index t +ℤ n ≡ pos j
    → j < 120000
    → (result : Text) × (u : MonthStart) × (add_month m n ≡ ok result)
      × (parse_time result ≡ some u)
      × (month_index u ≡ pos j)
add_month_inside m t n j h e lt = (
  month_of (month_at (month_index t +ℤ n)),
  month_at (pos j),
  add_month-eq m n t h,
  rw e (parse_time-month_at j lt),
  month_index-month_at (pos j),
)

-- Month.Add by a number of months that leaves the years from 0 to 9999 does not fail, and returns a
-- text that no longer parses as a month.
pub add_month_outside :
    (m : Text) (t : MonthStart) (n : ℤ)
    → parse_time m ≡ some t
    → ¬ ((j : ℕ) × (month_index t +ℤ n ≡ pos j) × (j < 120000))
    → (result : Text) × (add_month m n ≡ ok result) × (parse_time result ≡ none)
add_month_outside m t n h far = (
  month_of (month_at (month_index t +ℤ n)),
  add_month-eq m n t h,
  too_long _ (length-month_of_far _ far),
)

-- The count of months, if it lies in the years from 0 to 9999.
abbrev pub in_years : ℤ → Option ℤ
in_years (pos j) = if ltb j 120000 then some (pos j) else none
in_years (negsuc j) = none

parse_time-printed :
    (z : ℤ) → Option.map month_index (parse_time (month_of (month_at z))) ≡ in_years z
parse_time-printed (pos j) = elim (Bool-cases (ltb j 120000)) [
  | inl near ↦
      rw (near, parse_time-month_at j (ground (arith, near)), month_index-month_at (pos j)) refl
  | inr far ↦
      rw (far, too_long _ (length-month_of_far (pos j) (λ (i, e, h). ground (arith, far)))) refl
]
parse_time-printed (negsuc j) =
    rw (too_long _ (length-month_of_far (negsuc j) (λ (i, e, h). cc e))) refl

-- Month.Add on a month that parses, by fewer than 2^40 months, never fails. What it returns parses to the month that many months away,
-- where that lies in the years from 0 to 9999, and does not parse where it does not.
pub add_month_exact :
    (m : Text) (t : MonthStart) (n : ℤ)
    → parse_time m ≡ some t
    → pos_part n + neg_part n < 2 ^ 40
    → (result : Text) × (add_month m n ≡ ok result)
      × (Option.map month_index (parse_time result) ≡ in_years (month_index t +ℤ n))
add_month_exact m t n h small = (
  month_of (month_at (month_index t +ℤ n)),
  add_month-eq m n t h,
  parse_time-printed (month_index t +ℤ n),
)

month_at-month_index : (t : MonthStart) → Bounds t → month_at (month_index t) ≡ t
unfolding month_at
month_at-month_index t b =
    rw (b.is_start, month_index-month_start b.y b.k) (ap₂ month_start quotient remainder)
  where
    quotient : (b.y * 12 + b.k) / 12 ≡ b.y
    quotient = omega (arith, b.month_fits)

    remainder : (b.y * 12 + b.k) % 12 ≡ b.k
    remainder = omega (arith, b.month_fits)

succ_pos : (j : ℕ) → pos j +ℤ pos 1 ≡ pos (suc j)
succ_pos j = omega int_laws

pred_pos : (j : ℕ) → pos (suc j) +ℤ negsuc 0 ≡ pos j
pred_pos j = omega int_laws

-- A month and the one after it, in the years from 0 to 9999: Prev undoes Next.
pub prev-next :
    (m : Text) {t : MonthStart} (j : ℕ)
    → parse_time m ≡ some t
    → month_index t ≡ pos j
    → suc j < 120000
    → (next_month m >>= prev_month) ≡ ok m
unfolding next_month prev_month
prev-next m {t} j h e lt = rw (
  add_month-eq m (pos 1) t h,
  e,
  succ_pos j,
  add_month-eq _ (negsuc 0) (month_at (pos (suc j))) (parse_time-month_at (suc j) lt),
  month_index-month_at (pos (suc j)),
  pred_pos j,
  ← e,
  month_at-month_index t (parse_time-Bounds m t h),
  month_of-parse_time m t h,
)
