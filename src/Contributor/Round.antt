-- ===== src/Contributor/Round.antt =====
-- contributor/round.go
use blue.Prelude.{Text, ℤ, pos, add64, List, [], ◌∷◌}

pub record Entitlement : Type 0 where
  pub account : Text
  pub credits : ℤ
  pub amount_cents : ℤ

pub record Round : Type 0 where
  pub month : Text
  pub policy_version : Text
  pub calculation_version : ℤ
  pub currency : Text
  pub net_receipts_cents : ℤ
  pub carryforward_cents : ℤ
  pub pool_cents : ℤ
  pub total_credits : ℤ
  pub entitlements : List Entitlement
  pub unallocated_cents : ℤ
  pub closed_at : ℤ
  pub closed_by : Text

-- The loop of Round.AllocatedCents, which Allocate runs too.
unfoldable pub allocated_from : ℤ → List Entitlement → ℤ
allocated_from total [] = total
allocated_from total (e ∷ es) = allocated_from (add64 total e.amount_cents) es

-- Round.AllocatedCents
unfoldable pub allocated_cents : Round → ℤ
unfolding allocated_from
allocated_cents r = allocated_from (pos 0) r.entitlements
