-- ===== src/Retry/Attempts.antt =====
-- How often Retry of retry/retry.go calls the function.
use blue.Prelude.{
  ℕ, zero, suc, ◌+◌, ◌<◌, ◌≤◌, ◌≡◌, refl, Bool, true, false, Option, none, some, List, leb, arith,
  ◌⊎◌, Option-cases, Bool-cases, inl, inr,
}
use blue.Retry.{
  Strategy, Attempt, succeeded, failed, limit_strategy, combined_strategy, combined_from,
  final_error, retry_from, retry,
}

limit_stops :
    (limit count : ℕ) (others : List Strategy)
    → limit ≤ count
    → (combined_strategy (limit_strategy limit) others count).1 ≡ true
unfolding combined_strategy combined_from limit_strategy
limit_stops limit count others h = ground arith

Attempt-cases :
    {E : Type 0} (a : Attempt E)
    → (a ≡ succeeded) ⊎ ((again : Bool) × (e : E) × (a ≡ failed again e))
Attempt-cases succeeded = inl refl
Attempt-cases (failed again e) = inr (again, e, refl)

module _ {E : Type 0} (append : Option E → E → E) (fn : ℕ → Attempt E)
    (context_error : ℕ → Option E) (context_done : ℕ → Bool) (limit : ℕ)
    (others : List Strategy) where
  strategy : Strategy
  strategy = combined_strategy (limit_strategy limit) others

  abbrev Returned : Option (Option E) → Type 0
  Returned r = (outcome : Option E) × (r ≡ some outcome)

  abbrev calling : ℕ → ℕ → Option E → Option (Option E)
  calling = retry_from append fn context_error context_done strategy

  stops : (count : ℕ) → limit ≤ count → (strategy count).1 ≡ true
  unfolding strategy
  stops count h = limit_stops limit count others h

  goes_on : (count : ℕ) → (strategy count).1 ≡ false → count < limit
  goes_on count h = elim (Bool-cases (leb limit count)) [
    | inl e ↦ absurd (cc (h, stops count (ground arith)))
    | inr e ↦ ground arith
  ]

  -- One call: it is the last, or there is a next one, which the strategy allows.
  one_call :
      (calls count : ℕ) (result : Option E)
      → ((r : Option E) → suc count < limit → Returned (calling calls (suc count) r))
      → Returned (calling (suc calls) count result)
  unfolding retry_from
  one_call calls count result next = elim (Attempt-cases (fn count)) [
    | inl e ↦ (none, rw (e, retry_from) refl)
    | inr (again, x, e) ↦ elim (Option-cases (context_error count)) [
      | inr (c, ce) ↦ (some (append (some (append result c)) x), rw (e, ce, retry_from) refl)
      | inl ce ↦ elim (Bool-cases again) [
        | inr ag ↦ (
          some (final_error append fn context_error context_done strategy result x),
          rw (e, ce, ag, retry_from) refl,
        )
        | inl ag ↦ elim (Bool-cases ((strategy (suc count)).1)) [
          | inl st ↦ (some (append result x), rw (e, ce, ag, st, retry_from) refl)
          | inr st ↦ elim (Bool-cases (context_done count)) [
            | inl dn ↦ (some (append result x), rw (e, ce, ag, st, dn, retry_from) refl)
            | inr dn ↦
                let (outcome, h) = next (some (append result x)) (goes_on (suc count) st) in
                (outcome, rw (e, ce, ag, st, dn, retry_from) h)
          ]
        ]
      ]
    ]
  ]

  finishes :
      (calls count : ℕ) (result : Option E)
      → 0 < calls
      → limit ≤ count + calls
      → Returned (calling calls count result)
  finishes zero count result some_calls enough = absurd (omega arith)
  finishes (suc calls) count result some_calls enough =
      one_call calls count result
        (λ r more. finishes calls (suc count) r (omega arith) (omega arith))

  -- Under a strategy that combines a limit with any others, Retry returns after at most as many calls
  -- as the limit, or one call for a limit of zero, whatever the function and the context answer.
  pub retry_finishes :
      (calls : ℕ)
      → 0 < calls
      → limit ≤ calls
      → (outcome : Option E) × (retry append fn context_error context_done
            (combined_strategy (limit_strategy limit) others)
            calls
          ≡ some outcome)
  unfolding retry strategy
  retry_finishes calls some_calls enough = finishes calls 0 none some_calls (omega arith)
