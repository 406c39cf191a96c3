-- ===== src/Contributor/Clock.antt =====
-- The instants of time.Time that the package contributor computes: nanoseconds since the first
-- instant of the year 0, in the proleptic Gregorian calendar of Go, UTC.
use blue.Prelude.{
  ℕ, ◌+◌, ◌-◌, ◌*◌, ◌/◌, ◌%◌, ℤ, pos, negsuc, ◌-ℤ◌, ◌*ℤ◌, Bool, ◌&&◌, ◌||◌, not, ◌==◌,
  if◌then◌else◌, [], ◌∷◌, get_or,
}
use blue.Contributor.Month.{MonthStart}

unfoldable pub is_leap : ℕ → Bool
is_leap y = y % 4 == 0 && (not (y % 100 == 0) || y % 400 == 0)

-- The days from the year 0 to a year that is not before it.
unfoldable pub days_before_year : ℕ → ℕ
days_before_year y = 365 * y + (y + 3) / 4 - (y + 99) / 100 + (y + 399) / 400

-- The days of a year before a month, which counts from 0.
unfoldable pub days_before_month : Bool → ℕ → ℕ
days_before_month leap month =
    get_or (0 ∷ 31 ∷ 59 ∷ 90 ∷ 120 ∷ 151 ∷ 181 ∷ 212 ∷ 243 ∷ 273 ∷ 304 ∷ 334 ∷ []) month 0
    + (if leap && not (month == 0) && not (month == 1) then 1 else 0)

-- The days from the year 0 to a month. The calendar repeats every 400 years, of 146097 days.
unfoldable pub days_at : ℤ → ℕ → ℤ
unfolding is_leap days_before_year days_before_month ◌-ℤ◌
days_at (pos y) month = pos (days_before_year y + days_before_month (is_leap y) month)
days_at (negsuc y) month =
    let eras = y / 400 + 1 in
    let y' = 400 * eras - (y + 1) in
    pos (days_before_year y' + days_before_month (is_leap y') month) -ℤ pos (146097 * eras)

unfoldable pub days_before : MonthStart → ℤ
unfolding days_at
days_before t = days_at t.year t.month

abbrev pub day : ℕ
day = 86_400_000_000_000

-- Midnight UTC of a day.
unfoldable pub midnight : ℤ → ℤ
unfolding ◌*ℤ◌
midnight days = days *ℤ pos day

-- The zero time.Time, the first instant of the year 1.
abbrev pub zero_time : ℤ
zero_time = pos (366 * day)
