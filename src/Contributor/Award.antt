-- ===== src/Contributor/Award.antt =====
-- contributor/award.go. Times are nanoseconds since a fixed instant.
use blue.Prelude.{
  Text, is_empty, text_eq, ℤ, pos, leb_ℤ, add64, Bool, true, false, not, ◌&&◌, ◌||◌, List, [], ◌∷◌,
}
use blue.Contributor.Result.{
  Result, ok, ◌>>◌, refuse, wrap_error, award_no_recipients, award_missing_account,
  award_bad_credits, award_duplicate_recipient, award_activation, award_expiration,
  award_expires_early, award_missing_evidence, award_missing_policy, award_unknown_status,
}
use blue.Contributor.Month.{validate_month, before}

-- AwardStatus, a string in the source: one of three constants, or any other text.
pub data AwardStatus : Type 0 where
  proposed approved rejected : AwardStatus
  other_status : Text → AwardStatus

pub record Split : Type 0 where
  pub account : Text
  pub credits : ℤ

pub record Award : Type 0 where
  pub id : Text
  pub splits : List Split
  pub activation : Text
  pub expiration : Text
  pub evidence : List Text
  pub description : Text
  pub policy_version : Text
  pub status : AwardStatus
  pub proposed_by : Text
  pub proposed_at : ℤ
  pub decided_by : Text
  pub decided_at : ℤ
  pub decision_note : Text

-- `seen[account]`, with the accounts met so far.
unfoldable pub contains : List Text → Text → Bool
contains [] account = false
contains (a ∷ seen) account = text_eq a account || contains seen account

-- The loop of Award.Validate over the splits.
unfoldable pub validate_splits : List Text → List Split → Result (Unit {0})
validate_splits seen [] = ok tt
validate_splits seen (s ∷ splits) =
    let rest = validate_splits (s.account ∷ seen) splits in
    do
      refuse (is_empty s.account) award_missing_account
      refuse (leb_ℤ s.credits (pos 0)) (award_bad_credits s.account)
      refuse (contains seen s.account) (award_duplicate_recipient s.account)
      rest

abbrev pub has_none {ℓ} : {A : Type ℓ} → List A → Bool
has_none [] = true
has_none (x ∷ xs) = false

abbrev pub is_unknown : AwardStatus → Bool
is_unknown proposed = false
is_unknown approved = false
is_unknown rejected = false
is_unknown (other_status s) = true

-- Award.Validate
unfoldable pub validate_award : Award → Result (Unit {0})
validate_award a = do
  refuse (has_none a.splits) award_no_recipients
  validate_splits [] a.splits
  wrap_error award_activation (validate_month a.activation)
  wrap_error award_expiration (validate_month a.expiration)
  refuse (not (before a.activation a.expiration)) award_expires_early
  refuse (has_none a.evidence) award_missing_evidence
  refuse (is_empty a.policy_version) award_missing_policy
  refuse (is_unknown a.status) award_unknown_status

-- Award.TotalCredits
unfoldable pub total_credits_from : ℤ → List Split → ℤ
total_credits_from total [] = total
total_credits_from total (s ∷ splits) = total_credits_from (add64 total s.credits) splits

unfoldable pub total_credits : Award → ℤ
total_credits a = total_credits_from (pos 0) a.splits

-- Award.ActiveIn
unfoldable pub active_in : Award → Text → Bool
active_in a m = not (before m a.activation) && before m a.expiration
