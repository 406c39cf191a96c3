-- ===== src/Retry/Examples.antt =====
-- Runs of retry/retry.go, and its theorems at concrete inputs.
use blue.Prelude.{
  ℕ, ◌≡◌, refl, pos, true, false, Option, none, some, List, [], ◌∷◌, arith, ◌==◌, if◌then◌else◌,
}
use blue.Retry.{
  Attempt, succeeded, failed, limit_strategy, sequential_strategy, combined_strategy, combined_from,
  retry_from, retry,
}
use blue.Retry.Backoff.{capped}
use blue.Retry.Attempts.{retry_finishes}

capped-run : capped 3 3 40 ≡ 24
unfolding capped
capped-run = refl

-- The function fails twice and then succeeds; errors are lists of numbers.
abbrev third_time : ℕ → Attempt (List ℕ)
third_time n = if n == 2 then succeeded else failed true (n ∷ [])

abbrev collect : Option (List ℕ) → List ℕ → List ℕ
collect none e = e
collect (some r) e = r

retry-third :
    retry collect third_time (λ n. none) (λ n. false) (combined_strategy (limit_strategy 5) []) 5
    ≡ some none
unfolding retry retry_from combined_strategy combined_from limit_strategy
retry-third = refl

retry-twice :
    retry collect third_time (λ n. none) (λ n. false) (combined_strategy (limit_strategy 2) []) 2
    ≡ some (some (0 ∷ []))
unfolding retry retry_from combined_strategy combined_from limit_strategy
retry-twice = refl

retry_finishes_example :
    (outcome : Option (List ℕ)) × (retry collect third_time
        (λ n. none)
        (λ n. false)
        (combined_strategy (limit_strategy 5) (sequential_strategy (pos 9) ∷ []))
        5
      ≡ some outcome)
retry_finishes_example =
    retry_finishes collect third_time (λ n. none) (λ n. false) 5 (sequential_strategy (pos 9) ∷ [])
      5 (omega arith) (omega arith)
