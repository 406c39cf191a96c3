-- ===== src/Contributor/Ledger/Conserved.antt =====
-- Where the money of the closed rounds of contributor/ledger.go goes.
use blue.Prelude.{
  ℕ, ◌+◌, ◌≤◌, ◌<◌, ◌^◌, Text, ◌≡◌, sym, ℤ, pos, ◌+ℤ◌, ◌-ℤ◌, int_laws, Bool, true, List, [], ◌∷◌,
  Option, All, sum_by, arith,
}
use mathlib.Core.Path.{subst}
use blue.Document.{Collection, documents, select}
use blue.Contributor.Result.{Result, ok, >>=-eq-ok, >>-eq-ok, wrap_error, program_for}
use blue.Contributor.Month.{validate_month, before}
use blue.Contributor.Round.{Round}
use blue.Contributor.Award.{Award, approved}
use blue.Contributor.Obligation.{Obligation}
use blue.Contributor.Engine.Shares.{cents}
use blue.Contributor.Engine.Tally.{granted}
use blue.Contributor.Compute.Balance.{Balanced, compute_round-Balanced}
use blue.Contributor.Store.{
  Books, Call, list_documents, has_status, program_effective, list_month_receipts, list_awards,
}
use blue.Contributor.Ledger.{carryforward, assemble, close_round}
use blue.Contributor.Ledger.Commit.{close_round-Closed}
use blue.Contributor.Ledger.Chain.{Follows, IsSequence, close_round-IsSequence}

-- What the entitlements of the closed rounds add up to.
abbrev pub paid_out : Collection Round → ℕ
paid_out [] = 0
paid_out ((m, r) ∷ rounds) = sum_by cents r.entitlements + paid_out rounds

-- What the closed months added to the pools: a pool without what the round before left.
abbrev pub paid_in : Collection Round → ℤ
paid_in [] = pos 0
paid_in ((m, r) ∷ rounds) = (r.pool_cents -ℤ r.carryforward_cents) +ℤ paid_in rounds

-- What the latest round left.
abbrev pub left_over : Collection Round → ℤ
left_over [] = pos 0
left_over ((m, r) ∷ rounds) = r.unallocated_cents

-- What was paid in was paid out, but for what is left.
abbrev pub IsConserved : Collection Round → Type 0
IsConserved rounds = (pos (paid_out rounds) +ℤ left_over rounds) ≡ paid_in rounds

Follows-left_over :
    (m : Text) (r : Round) (rounds : Collection Round)
    → Follows m r rounds
    → r.carryforward_cents ≡ left_over rounds
Follows-left_over m r [] h = h
Follows-left_over m r ((k, q) ∷ rounds) h = h.1

-- A pool is paid out or carried forward.
Balanced-pool :
    (total : ℕ) (r : Round) (os : List Obligation)
    → Balanced total r os
    → (pos (sum_by cents r.entitlements) +ℤ r.unallocated_cents) ≡ r.pool_cents
unfolding ◌+ℤ◌
Balanced-pool total r os b = rw (b.allocated, b.carried) (ground arith)

pool_conserved :
    (a p : ℕ) (u c pool s : ℤ)
    → (pos a +ℤ u) ≡ pool
    → (pos p +ℤ c) ≡ s
    → (pos (a + p) +ℤ u) ≡ (pool -ℤ c) +ℤ s
pool_conserved a p u c pool s h g = rw (sym h, sym g) (grind int_laws)

granted-select :
    (f : Award → Bool) (as' : List Award) (m : Text) → granted (select f as') m ≤ granted as' m
unfolding select
granted-select f [] m = ground arith
granted-select f (a ∷ as') m = ground (arith, granted-select f as' m)

the_list : {xs ys : List Award} → ◌≡◌ {A = Result (List Award)} (ok xs) (ok ys) → xs ≡ ys
the_list h = cc h

module _ (faults : Call → Option Text) where
  listed-granted :
      (awards : Collection Award) (m : Text) (as' : List Award)
      → list_awards faults awards approved ≡ ok as'
      → granted as' m ≤ granted (documents awards) m
  unfolding list_awards list_documents
  listed-granted awards m as' h =
      let listed = the_list (>>-eq-ok _ _ h).1 in
      rw (sym listed) (granted-select (has_status approved) (documents awards) m)

  assemble-Balanced :
      (b : Books) (m : Text) {r : Round} {os : List Obligation}
      → granted (documents b.awards) m < 2 ^ 63
      → assemble faults b m ≡ ok (r, os)
      → (total : ℕ) × Balanced total r os
  unfolding assemble
  assemble-Balanced b m {r} {os} fits h =
      let (valid, h1) = >>-eq-ok (validate_month m) _ h in
      let (p, e2, h2) =
        >>=-eq-ok (wrap_error (program_for m) (program_effective faults b.programs m)) _ h1 in
      let (rs, e3, h3) = >>=-eq-ok (list_month_receipts faults b.receipts m) _ h2 in
      let (as', e4, h4) = >>=-eq-ok (list_awards faults b.awards approved) _ h3 in
      let (z, e5, h5) = >>=-eq-ok (carryforward faults b.rounds m) _ h4 in
      let small : granted as' m < 2 ^ 63 = omega (arith, listed-granted b.awards m as' e4, fits) in
      (granted as' m, compute_round-Balanced p m rs as' z r os h5 small)

-- Closing a month after all closed months, where the credits of the awards fit an int64, keeps the money of
-- the closed rounds, one for each of consecutive months, conserved: the entitlements and what the
-- latest round left add up to what the months added to the pools.
pub close_round-IsConserved :
    (faults : Call → Option Text) (b : Books) (m : Text) (at : ℤ) (by : Text) (r : Round)
    → IsSequence b.rounds
    → All (λ e. before e.0 m ≡ true) b.rounds
    → granted (documents b.awards) m < 2 ^ 63
    → IsConserved b.rounds
    → (close_round faults b m at by).0 ≡ ok r
    → IsConserved (close_round faults b m at by).1.rounds
close_round-IsConserved faults b m at by r v all fits conserved h =
    let c = close_round-Closed faults b m at by h in
    let next : IsSequence ((r.month, r) ∷ b.rounds) =
      subst (λ (x : Books). IsSequence x.rounds) c.books_eq
        (close_round-IsSequence faults b m at by r v all h) in
    let (total, balanced) = assemble-Balanced faults b m fits c.assembled in
    let whole : (pos (sum_by cents r.entitlements) +ℤ r.unallocated_cents) ≡ r.pool_cents =
      rw c.round_eq (Balanced-pool total c.round _ balanced) in
    let carried = Follows-left_over r.month r b.rounds next.2 in
    subst (λ (x : Books). IsConserved x.rounds) (sym c.books_eq)
      (pool_conserved _ (paid_out b.rounds) r.unallocated_cents r.carryforward_cents r.pool_cents _
        whole (rw carried conserved))
