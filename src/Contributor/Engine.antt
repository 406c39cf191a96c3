-- ===== src/Contributor/Engine.antt =====
-- The pure functions of contributor/engine.go up to Allocate. A map from accounts to credits is the
-- list of its entries in the order in which `range` meets them.
pub mod Shares
pub mod Leftover
pub mod Holders
pub mod Exact
pub mod Order
pub mod Ranking
pub mod Fair
pub mod Allocation
pub mod Deterministic
pub mod Tally
use blue.Prelude.{
  ℕ, zero, suc, ◌+◌, Text, text_eq, text_lt, ℤ, pos, pos_part, ltb_ℤ, eqb_ℤ, ◌*ℤ◌, quo, rem, add64,
  sub64, wrap64, Bool, true, false, not, List, [], ◌∷◌, ◌++◌, map, length, get_or, stable_sort,
  if◌then◌else◌,
}
use blue.Contributor.Result.{
  Result, ok, err, panic, ◌>>◌, ◌>>=◌, refuse, wrap_error, award_invalid, negative_pool,
  negative_credits,
}
use blue.Contributor.Award.{AwardStatus, Award, Split, validate_award, active_in}
use blue.Contributor.Round.{Entitlement, allocated_from}

abbrev pub Credits : Type 0
Credits = List (Text × ℤ)

-- `credits[account]`, zero for an account that the map does not hold.
unfoldable pub credits_of : Credits → Text → ℤ
credits_of [] account = pos 0
credits_of ((k, c) ∷ credits) account = if text_eq k account then c else credits_of credits account

-- `credits[account] += c`
unfoldable pub add_credits : Credits → Text → ℤ → Credits
add_credits [] account c = (account, add64 (pos 0) c) ∷ []
add_credits ((k, v) ∷ credits) account c =
    let rest = add_credits credits account c in
    if text_eq k account then (k, add64 v c) ∷ credits else (k, v) ∷ rest

unfoldable pub add_splits : Credits → List Split → Credits
unfolding add_credits
add_splits credits [] = credits
add_splits credits (s ∷ splits) = add_splits (add_credits credits s.account s.credits) splits

abbrev pub is_approved : AwardStatus → Bool
is_approved AwardStatus.approved = true
is_approved _ = false

-- One round of the loop of ActiveCredits.
unfoldable pub add_award : Credits → Award → Text → Result Credits
add_award credits a m =
    if is_approved a.status
    then wrap_error (award_invalid a.id) (validate_award a)
      >> (if active_in a m then ok (add_splits credits a.splits) else ok credits)
    else ok credits

unfoldable pub active_credits_from : Credits → List Award → Text → Result Credits
active_credits_from credits [] m = ok credits
active_credits_from credits (a ∷ awards) m =
    add_award credits a m >>= λ next. active_credits_from next awards m

-- ActiveCredits
unfoldable pub active_credits : List Award → Text → Result Credits
active_credits awards m = active_credits_from [] awards m

-- PoolShareCents
unfoldable pub pool_share_cents : ℤ → ℤ → ℤ
pool_share_cents pool_bps net_receipts_cents =
    wrap64 (quo (net_receipts_cents *ℤ pool_bps) (pos 10000))

-- The loop of Allocate over the map: the accounts with credits, and the sum of the credits.
unfoldable pub gather : List Text → ℤ → Credits → Result (List Text × ℤ)
gather accounts total [] = ok (accounts, total)
gather accounts total ((account, c) ∷ credits) =
    refuse (ltb_ℤ c (pos 0)) (negative_credits account)
    >> gather (if eqb_ℤ c (pos 0) then accounts else accounts ++ account ∷ [])
        (if eqb_ℤ c (pos 0) then total else add64 total c) credits

unfoldable pub entitle : ℤ → Credits → ℤ → Text → Entitlement
entitle pool credits total account = record {
  account = account;
  credits = credits_of credits account;
  amount_cents = wrap64 (quo (pool *ℤ credits_of credits account) total);
}

unfoldable pub remainder_of : ℤ → Credits → ℤ → Text → ℤ
remainder_of pool credits total account = rem (pool *ℤ credits_of credits account) total

unfoldable pub range_from : ℕ → ℕ → List ℕ
range_from i zero = []
range_from i (suc n) = i ∷ range_from (suc i) n

-- The comparison of sort.SliceStable: the larger remainder first.
unfoldable pub larger_remainder : List ℤ → ℕ → ℕ → Bool
larger_remainder remainders i j = ltb_ℤ (get_or remainders j (pos 0)) (get_or remainders i (pos 0))

unfoldable pub increment : ℕ → List Entitlement → List Entitlement
increment i [] = []
increment zero (e ∷ es) = record e { amount_cents = add64 e.amount_cents (pos 1) } ∷ es
increment (suc i) (e ∷ es) = e ∷ increment i es

-- The last loop of Allocate: a cent to each of the first entitlements of the order. An order that
-- is too short is an index out of range.
unfoldable pub give : ℕ → List ℕ → List Entitlement → Result (List Entitlement)
unfolding increment
give zero order es = ok es
give (suc k) [] es = panic
give (suc k) (i ∷ order) es = give k order (increment i es)

-- The order in which the remaining cents are given out.
unfoldable pub by_remainder : List ℤ → List ℕ
unfolding range_from larger_remainder stable_sort
by_remainder remainders =
    stable_sort (larger_remainder remainders) (range_from 0 (length remainders))

-- Allocate, once the accounts are sorted.
unfoldable pub distribute : ℤ → Credits → ℤ → List Text → Result (List Entitlement)
distribute pool credits total accounts =
    let es = map (entitle pool credits total) accounts in
    let remainders = map (remainder_of pool credits total) accounts in
    let leftover = sub64 pool (allocated_from (pos 0) es) in
    give (pos_part leftover) (by_remainder remainders) es

-- Allocate
unfoldable pub allocate : ℤ → Credits → Result (List Entitlement)
allocate pool credits = do
  refuse (ltb_ℤ pool (pos 0)) negative_pool
  found ← gather [] (pos 0) credits
  if eqb_ℤ found.1 (pos 0)
      then ok []
      else distribute pool credits found.1 (stable_sort text_lt found.0)
