-- ===== src/Contributor/Engine/Deterministic.antt =====
-- Allocate of contributor/engine.go depends on the map of credits alone, and not on the order in
-- which `range` meets its entries.
use blue.Prelude.{
  ℕ, ◌^◌, ◌<◌, ◌≡◌, refl, sym, ap, ◌∙◌, Text, text_eq, text_eq→eq, text_lt, ℤ, pos, pos_part, eqb_ℤ,
  sub64, false, not, List, [], ◌∷◌, map, sum_by, mem_text, mem_text-stable_sort, Distinct,
  Ascending-unique, stable_sort-Ascending, sum_by-stable_sort, if◌then◌else◌, Bool-cases, inl, inr,
  arith,
}
use mathlib.Core.Path.{fun_ext, ap₂, subst}
use native.Mathlib.Nat.{zero-add}
use blue.Contributor.Result.{ok}
use blue.Contributor.Round.{allocated_from}
use blue.Contributor.Engine.{
  Credits, credits_of, entitle, remainder_of, by_remainder, give, distribute, allocate,
}
use blue.Contributor.Engine.Shares.{weight}
use blue.Contributor.Engine.Holders.{
  value, holds, DistinctKeys, AreCredits, holders, sum_by-holders, not_negative, gather-eq,
}
use blue.Contributor.Engine.Exact.{sorted_holders}

-- Two enumerations of one map.
abbrev pub SameMap : Credits → Credits → Type 0
SameMap c d = (account : Text) → credits_of c account ≡ credits_of d account

not_held :
    (credits : Credits) (a : Text) → holds credits a ≡ false → mem_text (holders credits) a ≡ false
not_held [] a h = refl
not_held ((k, c) ∷ credits) a h = ground (arith, not_held credits a)

-- The accounts with credits are those that the map gives credits.
pub mem_text-holders :
    (credits : Credits) (a : Text)
    → DistinctKeys credits
    → mem_text (holders credits) a ≡ not (eqb_ℤ (credits_of credits a) (pos 0))
unfolding credits_of
mem_text-holders [] a d = refl
mem_text-holders ((k, c) ∷ credits) a d = elim (Bool-cases (text_eq k a)) [
  | inl e ↦
      let missing : mem_text (holders credits) a ≡ false =
        not_held credits a (subst (λ b. holds credits b ≡ false) (text_eq→eq k a e) d.0) in
      ground (arith, missing)
  | inr e ↦ ground (arith, mem_text-holders credits a d.1)
]

pub Distinct-holders : (credits : Credits) → DistinctKeys credits → Distinct (holders credits)
Distinct-holders [] d = tt
Distinct-holders ((k, c) ∷ credits) d = elim (Bool-cases (eqb_ℤ c (pos 0))) [
  | inl e ↦ rw e (Distinct-holders credits d.1)
  | inr e ↦ rw e (not_held credits k d.0, Distinct-holders credits d.1)
]

sum_over_sorted :
    (credits : Credits)
    → DistinctKeys credits
    → AreCredits credits
    → sum_by (weight credits) (sorted_holders credits) ≡ sum_by value credits
sum_over_sorted credits d v =
    sum_by-stable_sort text_lt (weight credits) (holders credits) ∙ sum_by-holders credits d v

module _ (c d : Credits) (same : SameMap c d) where
  entitle-same : (pool total : ℤ) → entitle pool c total ≡ entitle pool d total
  unfolding entitle
  entitle-same pool total = fun_ext (λ a. rw (same a))

  remainder_of-same : (pool total : ℤ) → remainder_of pool c total ≡ remainder_of pool d total
  unfolding remainder_of
  remainder_of-same pool total = fun_ext (λ a. rw (same a))

  pub distribute-same :
      (pool total : ℤ) (accounts : List Text)
      → distribute pool c total accounts ≡ distribute pool d total accounts
  unfolding distribute
  distribute-same pool total accounts =
      ap₂
        (λ f g.
          give (pos_part (sub64 pool (allocated_from (pos 0) (map f accounts))))
            (by_remainder (map g accounts)) (map f accounts))
        (entitle-same pool total) (remainder_of-same pool total)

  pub sorted_holders-same : DistinctKeys c → DistinctKeys d → sorted_holders c ≡ sorted_holders d
  sorted_holders-same dc dd =
      Ascending-unique (sorted_holders c) (sorted_holders d)
        (stable_sort-Ascending (holders c) (Distinct-holders c dc))
        (stable_sort-Ascending (holders d) (Distinct-holders d dd))
        (λ a.
          mem_text-stable_sort (holders c) a
          ∙ mem_text-holders c a dc
          ∙ ap (λ z. not (eqb_ℤ z (pos 0))) (same a)
          ∙ sym (mem_text-holders d a dd)
          ∙ sym (mem_text-stable_sort (holders d) a))

  pub sum-same :
      DistinctKeys c
      → DistinctKeys d
      → AreCredits c
      → AreCredits d
      → sum_by value c ≡ sum_by value d
  sum-same dc dd nc nd =
      sym (sum_over_sorted c dc nc)
      ∙ ap₂ (λ (f : Text → ℤ) (xs : List Text). sum_by (λ a. pos_part (f a)) xs) (fun_ext same)
          (sorted_holders-same dc dd)
      ∙ sum_over_sorted d dd nd

-- Allocate on a map of credits that fits an int64.
pub allocate-cases :
    (credits : Credits) (pool : ℕ)
    → AreCredits credits
    → sum_by value credits < 2 ^ 63
    → allocate (pos pool) credits ≡ (
        if eqb_ℤ (pos (sum_by value credits)) (pos 0)
        then ok []
        else distribute (pos pool) credits (pos (sum_by value credits)) (sorted_holders credits))
unfolding allocate
allocate-cases credits pool v fits =
    rw (not_negative pool, gather-eq [] 0 credits v (omega arith), zero-add)

-- Two enumerations of one map, with no negative credits and a sum that fits an int64, are allocated
-- alike.
pub allocate_deterministic :
    (c d : Credits) (pool : ℕ)
    → SameMap c d
    → DistinctKeys c
    → DistinctKeys d
    → AreCredits c
    → AreCredits d
    → sum_by value c < 2 ^ 63
    → allocate (pos pool) c ≡ allocate (pos pool) d
allocate_deterministic c d pool same dc dd nc nd fits =
    let total = sum-same c d same dc dd nc nd in
    rw (
      allocate-cases c pool nc fits,
      allocate-cases d pool nd (omega arith),
      ← total,
      distribute-same c d same,
      sorted_holders-same c d same dc dd,
    )
