-- ===== src/Retry/Backoff.antt =====
-- The sleeps of the strategies of retry/retry.go.
use blue.Prelude.{
  ℕ, zero, suc, ◌-◌, ◌*◌, ◌/◌, ◌^◌, ◌<◌, ◌≤◌, ◌≡◌, refl, ℤ, pos, quo, *ℤ-pos, wrap64-pos, ltb_ℤ,
  ltb, leb, true, false, Bool-cases, inl, inr, arith, if◌then◌else◌,
}
use native.Mathlib.Nat.{one-le-pow, pow-suc, mul_assoc, le-mul_of_pos_right}
use blue.Retry.{
  doubled, exponential_strategy, default_strategy, combined_strategy, combined_from, limit_strategy,
}

-- The smaller of a minimum doubled a number of times and a maximum.
unfoldable pub capped : ℕ → ℕ → ℕ → ℕ
capped rounds min max = if leb max (min * 2 ^ rounds) then max else min * 2 ^ rounds

power_pos : (n : ℕ) → 1 ≤ 2 ^ n
power_pos n = one-le-pow n 2 (omega arith)

doubling : (min rounds : ℕ) → min * 2 ^ suc rounds ≡ min * 2 * 2 ^ rounds
doubling min rounds = rw (pow-suc 2 rounds) (omega (arith, mul_assoc min 2 (2 ^ rounds)))

grows : (a n : ℕ) → a ≤ a * 2 ^ n
grows a n = le-mul_of_pos_right a (power_pos n)

halves : (max : ℕ) → quo (pos max) (pos 2) ≡ pos (max / 2)
unfolding quo
halves max = refl

positive : (n : ℕ) → 0 < n → ltb_ℤ (pos 0) (pos n) ≡ true
positive n h = ground arith

capped_id : (min max : ℕ) → min ≤ max → pos min ≡ pos (capped 0 min max)
unfolding capped
capped_id min max le = ground arith

last_round :
    (rounds min max : ℕ) (other : ℤ)
    → 0 < min
    → min ≤ max
    → ltb (max / 2) min ≡ true
    → (if ltb_ℤ (pos min) (pos max)
        then (if ltb_ℤ (pos (max / 2)) (pos min) then pos max else other)
        else pos min)
      ≡ pos (capped (suc rounds) min max)
unfolding capped
last_round rounds min max other p le e = ground (arith, doubling min rounds, grows (min * 2) rounds)

next_round :
    (rounds min max : ℕ)
    → 0 < min
    → ltb (max / 2) min ≡ false
    → (if ltb_ℤ (pos min) (pos max)
        then (if ltb_ℤ (pos (max / 2)) (pos min)
            then pos max
            else pos (capped rounds (min * 2) max))
        else pos min)
      ≡ pos (capped (suc rounds) min max)
unfolding capped
next_round rounds min max p e = rw (doubling min rounds) (ground arith)

doubled-capped :
    (rounds min max : ℕ)
    → 0 < min
    → min ≤ max
    → max < 2 ^ 63
    → doubled rounds (pos min) (pos max) ≡ pos (capped rounds min max)
unfolding doubled
doubled-capped zero min max p le fits = capped_id min max le
doubled-capped (suc rounds) min max p le fits = elim (Bool-cases (ltb (max / 2) min)) [
  | inl e ↦ rw (positive min p, halves max) (last_round rounds min max _ p le e)
  | inr e ↦
      rw
        (
          positive min p,
          halves max,
          *ℤ-pos min 2,
          wrap64-pos (min * 2) (ground arith),
          doubled-capped rounds (min * 2) max (omega arith) (ground arith) fits,
        )
        (next_round rounds min max p e)
]

no_more : (rounds min max : ℕ) → ltb_ℤ (pos max) (pos (capped rounds min max)) ≡ false
unfolding capped
no_more rounds min max = ground arith

-- For a minimum and a maximum that are positive and in order, ExponentialStrategy sleeps the minimum
-- times 2 to the number of retries before this one, or the maximum where that is smaller; it never
-- stops.
pub exponential_exact :
    (min max count : ℕ)
    → 0 < min
    → min ≤ max
    → max < 2 ^ 63
    → exponential_strategy (pos min) (pos max) count ≡ (pos (capped (count - 1) min max), false)
unfolding exponential_strategy
exponential_exact min max count p le fits =
    rw (doubled-capped (count - 1) min max p le fits, no_more (count - 1) min max) refl

some_sleep : (n : ℕ) → (if ltb_ℤ (pos 0) (pos n) then pos n else pos 0) ≡ pos n
some_sleep n = ground arith

-- DefaultStrategy stops from the tenth retry on, and before that sleeps a millisecond doubled for each
-- earlier retry, at most 1024 milliseconds.
pub default_exact :
    (count : ℕ)
    → default_strategy count ≡ (
        if leb 10 count
        then (pos 0, true)
        else (pos (capped (count - 1) 1_000_000 1_024_000_000), false))
unfolding default_strategy combined_strategy combined_from limit_strategy
default_exact count = elim (Bool-cases (leb 10 count)) [
  | inl e ↦ rw e refl
  | inr e ↦
      rw
        (
          e,
          exponential_exact 1_000_000 1_024_000_000 count (omega arith) (omega arith) (omega arith),
          some_sleep (capped (count - 1) 1_000_000 1_024_000_000),
        )
        refl
]
