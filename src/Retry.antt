-- ===== src/Retry.antt =====
-- retry/retry.go. A time.Duration is its nanoseconds, an int64.
pub mod Backoff
pub mod Attempts
mod Examples
use blue.Prelude.{
  ℕ, zero, suc, ◌+◌, ◌-◌, ℤ, pos, quo, ◌*ℤ◌, wrap64, ltb_ℤ, leb, Bool, true, false, ◌&&◌, not, List,
  [], ◌∷◌, Option, none, some, if◌then◌else◌,
}

-- A strategy answers, for a number of retries, how long to sleep, and whether to stop.
abbrev pub Strategy : Type 0
Strategy = ℕ → ℤ × Bool

-- LimitStrategy
unfoldable pub limit_strategy : ℕ → Strategy
limit_strategy limit count = (pos 0, leb limit count)

-- The loop of ExponentialStrategy, for as many rounds as its counter allows.
unfoldable pub doubled : ℕ → ℤ → ℤ → ℤ
doubled zero sleep max = sleep
doubled (suc rounds) sleep max =
    let next = doubled rounds (wrap64 (sleep *ℤ pos 2)) max in
    if ltb_ℤ (pos 0) sleep && ltb_ℤ sleep max
    then (if ltb_ℤ (quo max (pos 2)) sleep then max else next)
    else sleep

-- ExponentialStrategy
unfoldable pub exponential_strategy : ℤ → ℤ → Strategy
exponential_strategy min max count =
    let sleep = doubled (count - 1) min max in (if ltb_ℤ max sleep then max else sleep, false)

-- SequentialStrategy
unfoldable pub sequential_strategy : ℤ → Strategy
sequential_strategy every count = (every, false)

-- The loop of CombinedStrategy.
unfoldable pub combined_from : ℤ → List Strategy → ℕ → ℤ × Bool
combined_from max [] count = (max, false)
combined_from max (strategy ∷ strategies) count =
    let answer = strategy count in
    let rest = combined_from (if ltb_ℤ max answer.0 then answer.0 else max) strategies count in
    if answer.1 then answer else rest

-- CombinedStrategy
unfoldable pub combined_strategy : Strategy → List Strategy → Strategy
combined_strategy i n count = combined_from (pos 0) (i ∷ n) count

-- DefaultStrategy
unfoldable pub default_strategy : Strategy
default_strategy =
    combined_strategy (limit_strategy 10)
      (exponential_strategy (pos 1_000_000) (pos 1_024_000_000) ∷ [])

-- What a call of the function answers: no error, or an error and whether it may be retried.
pub data Attempt (E : Type 0) : Type 0 where
  succeeded : Attempt E
  failed : Bool → E → Attempt E

-- The function, the context and multierror.Append, which are not part of the package: the answer of
-- each call, the context's error after it, and whether the context is done before the sleep after it
-- ends.
module _ {E : Type 0} (append : Option E → E → E) (fn : ℕ → Attempt E)
    (context_error : ℕ → Option E) (context_done : ℕ → Bool) (strategy : Strategy) where
  -- The error that Retry passes on where the function forbids a retry.
  abbrev pub final_error : Option E → E → E
  final_error none e = e
  final_error (some r) e = append (some r) e

  -- The loop of Retry, for a number of calls at most; `some none` is a nil error.
  unfoldable pub retry_from : ℕ → ℕ → Option E → Option (Option E)
  retry_from zero count result = none
  retry_from (suc calls) count result = elim (fn count) [
    | succeeded ↦ some none
    | failed again e ↦ elim (context_error count) [
      | some c ↦ some (some (append (some (append result c)) e))
      | none ↦ elim again [
        | false ↦ some (some (final_error result e))
        | true ↦ elim ((strategy (suc count)).1) [
          | true ↦ some (some (append result e))
          | false ↦ elim (context_done count) [
            | true ↦ some (some (append result e))
            | false ↦ retry_from calls (suc count) (some (append result e))
          ]
        ]
      ]
    ]
  ]

  -- Retry
  unfoldable pub retry : ℕ → Option (Option E)
  retry calls = retry_from calls 0 none
