-- ===== src/Contributor/Compute/Balance.antt =====
-- Where the cents of a round of ComputeRound, contributor/engine.go, go.
use blue.Prelude.{
  ℕ, ◌^◌, ◌<◌, ◌≡◌, refl, sym, ap, ◌∙◌, Text, ℤ, pos, pos_part, ltb_ℤ, add64, sub64, wrap64, ◌-ℤ◌,
  ◌+ℤ◌, wrap64-IsInt64, IsInt64, true, ◌||◌, ◌==◌, ==_iff, List, [], ◌∷◌, All, sum_by, arith,
  Bool-cases, inl, inr, if◌then◌else◌,
}
use mathlib.Core.Path.{subst}
use blue.Contributor.Result.{Result, ok}
use blue.Contributor.Program.{Program}
use blue.Contributor.Award.{Award}
use blue.Contributor.Receipt.{Receipt}
use blue.Contributor.Round.{Entitlement, Round, allocated_from}
use blue.Contributor.Obligation.{Obligation}
use blue.Contributor.Engine.{Credits, pool_share_cents, allocate}
use blue.Contributor.Engine.Shares.{cents, IsCents, allocated_from-pos}
use blue.Contributor.Engine.Holders.{value}
use blue.Contributor.Engine.Exact.{IsAllocatable, allocate-PaysOut}
use blue.Contributor.Engine.Allocation.{allocate_nothing}
use blue.Contributor.Engine.Tally.{IsTally, granted, granted_to}
use blue.Contributor.Compute.{allocatable, obligations_of, round_of, compute_round}
use blue.Contributor.Compute.Inversion.{credits-IsTally, compute_round-Computed}

abbrev pub amount : Obligation → ℕ
amount o = pos_part o.amount_cents

-- Every cent of the pool is allocated, if there are credits and cents; the rest is carried forward.
pub record Balanced (total : ℕ) (r : Round) (obligations : List Obligation) : Type 0 where
  pub allocated : sum_by cents r.entitlements ≡ (if total == 0 then 0 else pos_part r.pool_cents)
  pub carried :
      r.unallocated_cents
      ≡ (if total == 0 || ltb_ℤ r.pool_cents (pos 0) then r.pool_cents else pos 0)
  pub owed : sum_by amount obligations ≡ sum_by cents r.entitlements

sum_by-obligations_of :
    (p : Program) (m : Text) (due : ℤ) (es : List Entitlement)
    → sum_by amount (obligations_of p m due es) ≡ sum_by cents es
unfolding obligations_of
sum_by-obligations_of p m due [] = refl
sum_by-obligations_of p m due (e ∷ es) = ground (arith, sum_by-obligations_of p m due es)

left_over :
    (total n : ℕ) (pool : ℤ)
    → IsInt64 pool
    → n ≡ (if total == 0 then 0 else pos_part pool)
    → sub64 pool (pos n) ≡ (if total == 0 || ltb_ℤ pool (pos 0) then pool else pos 0)
unfolding sub64 wrap64 ◌-ℤ◌
left_over total n pool fits whole = ground arith

paid_fits :
    (total n : ℕ) (pool : ℤ)
    → IsInt64 pool
    → n ≡ (if total == 0 then 0 else pos_part pool)
    → n < 2 ^ 63
paid_fits total n pool fits whole = ground arith

what_is_left :
    (total : ℕ) (pool : ℤ) (es : List Entitlement)
    → IsInt64 pool
    → All IsCents es
    → sum_by cents es ≡ (if total == 0 then 0 else pos_part pool)
    → sub64 pool (allocated_from (pos 0) es)
      ≡ (if total == 0 || ltb_ℤ pool (pos 0) then pool else pos 0)
what_is_left total pool es fits amounts whole =
    ap (sub64 pool) (
      allocated_from-pos 0 es amounts (omega (arith, paid_fits total _ pool fits whole))
      ∙ ap pos (omega arith))
    ∙ left_over total (sum_by cents es) pool fits whole

the_list :
    {ds es : List Entitlement} → ◌≡◌ {A = Result (List Entitlement)} (ok ds) (ok es) → ds ≡ es
the_list h = cc h

record Paid (credits : Credits) (pool : ℤ) (es : List Entitlement) : Type 0 where
  pub amounts : All IsCents es
  pub whole : sum_by cents es ≡ (if sum_by value credits == 0 then 0 else pos_part pool)

allocatable-pos : (pool : ℤ) → allocatable pool ≡ pos (pos_part pool)
allocatable-pos pool = ground arith

nothing-Paid :
    (credits : Credits) (pool : ℤ) {es : List Entitlement}
    → (sum_by value credits == 0) ≡ true
    → ◌≡◌ {A = Result (List Entitlement)} (ok []) (ok es)
    → Paid credits pool es
nothing-Paid credits pool none h =
    subst (Paid credits pool) (the_list h) (record { amounts = tt; whole = ground arith })

allocate-Paid :
    (credits : Credits) (to : Text → ℕ) (pool : ℤ) {es : List Entitlement}
    → IsTally credits (sum_by value credits) to
    → sum_by value credits < 2 ^ 63
    → IsInt64 pool
    → allocate (allocatable pool) credits ≡ ok es
    → Paid credits pool es
allocate-Paid credits to pool tally fits small h = elim (Bool-cases (sum_by value credits == 0)) [
  | inl e ↦ nothing-Paid credits pool e (
      sym (allocate_nothing credits (pos_part pool) tally.nonnegative ((==_iff _ 0).0 e))
      ∙ ap (λ z. allocate z credits) (sym (allocatable-pos pool))
      ∙ h)
  | inr e ↦
      let v : IsAllocatable credits = record {
        distinct = tally.distinct;
        nonnegative = tally.nonnegative;
        sum_fits = fits;
        some_credits = ground arith;
      } in
      let paid = allocate-PaysOut credits v (pos_part pool) small.0 in
      subst (Paid credits pool)
        (the_list
          (sym paid.returned ∙ ap (λ z. allocate z credits) (sym (allocatable-pos pool)) ∙ h))
        (record { amounts = paid.amounts; whole = rw e paid.whole_pool })
]

pool_fits : (carryforward share : ℤ) → IsInt64 (add64 carryforward share)
unfolding add64
pool_fits carryforward share = wrap64-IsInt64 (carryforward +ℤ share)

round_of-Balanced :
    (p : Program) (m : Text) (net carryforward due : ℤ) (credits : Credits) (es : List Entitlement)
    → Paid credits (add64 carryforward (pool_share_cents p.pool_bps net)) es
    → Balanced
        (sum_by value credits)
        (round_of p m net carryforward credits es)
        (obligations_of p m due es)
unfolding round_of
round_of-Balanced p m net carryforward due credits es paid =
    let pool : ℤ = add64 carryforward (pool_share_cents p.pool_bps net) in
    record {
      allocated = paid.whole;
      carried =
          what_is_left (sum_by value credits) pool es (pool_fits carryforward _) paid.amounts
            paid.whole;
      owed = sum_by-obligations_of p m due es;
    }

-- Where ComputeRound returns a round and obligations, and the credits fit an int64: the
-- entitlements add up to the whole pool, or to nothing where there are no credits or no pool; what
-- is carried forward is the pool where nothing could be allocated, and nothing otherwise; and the
-- obligations add up to the entitlements.
pub compute_round-Balanced :
    (p : Program) (m : Text) (receipts : List Receipt) (awards : List Award) (carryforward : ℤ)
    (r : Round) (obligations : List Obligation)
    → compute_round p m receipts awards carryforward ≡ ok (r, obligations)
    → granted awards m < 2 ^ 63
    → Balanced (granted awards m) r obligations
compute_round-Balanced p m receipts awards carryforward r obligations h fits =
    let c = compute_round-Computed p m receipts awards carryforward r obligations h in
    let tally = credits-IsTally p m receipts awards carryforward r obligations c fits in
    let paid =
      allocate-Paid c.credits (granted_to awards m) _ (rw tally.sum tally)
        (omega (arith, tally.sum)) (pool_fits carryforward _) c.allocated in
    rw (c.round_eq, c.obligations_eq, sym tally.sum)
      (round_of-Balanced p m c.net carryforward c.due c.credits c.entitlements paid)
