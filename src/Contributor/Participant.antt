-- ===== src/Contributor/Participant.antt =====
-- contributor/participant.go
use blue.Prelude.{Text, is_empty, ℤ, Bool, true, false}
use blue.Contributor.Result.{
  Result, ◌>>◌, refuse, participant_missing_account, participant_missing_handle,
  participant_missing_agreement, participant_unknown_status,
}

-- ParticipantStatus, a string in the source.
pub data ParticipantStatus : Type 0 where
  eligible suspended withdrawn : ParticipantStatus
  other_status : Text → ParticipantStatus

pub record Participant : Type 0 where
  pub account : Text
  pub github_handle : Text
  pub agreement_version : Text
  pub agreement_accepted_at : ℤ
  pub agreement_evidence : Text
  pub status : ParticipantStatus
  pub payout_provider_ref : Text
  pub payout_ready : Bool

abbrev pub is_unknown : ParticipantStatus → Bool
is_unknown eligible = false
is_unknown suspended = false
is_unknown withdrawn = false
is_unknown (other_status s) = true

-- Participant.Validate
unfoldable pub validate_participant : Participant → Result (Unit {0})
validate_participant p = do
  refuse (is_empty p.account) participant_missing_account
  refuse (is_empty p.github_handle) participant_missing_handle
  refuse (is_empty p.agreement_version) participant_missing_agreement
  refuse (is_unknown p.status) participant_unknown_status
