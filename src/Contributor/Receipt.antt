-- ===== src/Contributor/Receipt.antt =====
-- contributor/receipt.go
use blue.Prelude.{Text, is_empty, ℤ, pos, ltb_ℤ, sub64, Bool, true, false, List, [], ◌∷◌}
use blue.Contributor.Result.{
  Result, ok, ◌>>◌, refuse, wrap_error, receipt_missing_source, receipt_month,
  receipt_negative_gross, receipt_missing_currency, receipt_unknown_adjustment,
  receipt_negative_adjustment,
}
use blue.Contributor.Month.{validate_month}

-- AdjustmentKind, a string in the source.
pub data AdjustmentKind : Type 0 where
  tax refund pass_through : AdjustmentKind
  other_kind : Text → AdjustmentKind

pub record Adjustment : Type 0 where
  pub kind : AdjustmentKind
  pub amount_cents : ℤ
  pub description : Text

pub record Receipt : Type 0 where
  pub source : Text
  pub month : Text
  pub gross_cents : ℤ
  pub adjustments : List Adjustment
  pub currency : Text
  pub evidence : Text

-- The loop of Receipt.NetCents.
unfoldable pub net_from : ℤ → List Adjustment → ℤ
net_from net [] = net
net_from net (a ∷ adjustments) = net_from (sub64 net a.amount_cents) adjustments

-- Receipt.NetCents
unfoldable pub net_cents : Receipt → ℤ
unfolding net_from
net_cents r = net_from r.gross_cents r.adjustments

abbrev pub is_unknown_kind : AdjustmentKind → Bool
is_unknown_kind tax = false
is_unknown_kind refund = false
is_unknown_kind pass_through = false
is_unknown_kind (other_kind k) = true

unfoldable pub validate_adjustments : List Adjustment → Result (Unit {0})
validate_adjustments [] = ok tt
validate_adjustments (a ∷ adjustments) =
    let rest = validate_adjustments adjustments in
    do
      refuse (is_unknown_kind a.kind) receipt_unknown_adjustment
      refuse (ltb_ℤ a.amount_cents (pos 0)) receipt_negative_adjustment
      rest

-- Receipt.Validate
unfoldable pub validate_receipt : Receipt → Result (Unit {0})
validate_receipt r = do
  refuse (is_empty r.source) receipt_missing_source
  wrap_error receipt_month (validate_month r.month)
  refuse (ltb_ℤ r.gross_cents (pos 0)) receipt_negative_gross
  refuse (is_empty r.currency) receipt_missing_currency
  validate_adjustments r.adjustments
