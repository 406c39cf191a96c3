-- ===== src/Contributor/Obligation.antt =====
-- contributor/obligation.go
pub mod Lifecycle
use blue.Prelude.{Text, text_eq, ℤ, Bool, true, false, ◌||◌, List, [], ◌∷◌, ◌++◌, if◌then◌else◌}
use blue.Contributor.Result.{Result, ok, err, illegal_transition}

-- ObligationState, a string in the source: one of five constants, or any other text.
pub data ObligationState : Type 0 where
  estimated earned owed initiated settled : ObligationState
  other_state : Text → ObligationState

-- Times are kept as the nanoseconds since a fixed instant.
pub record ObligationEvent : Type 0 where
  pub from_state : ObligationState
  pub to_state : ObligationState
  pub at : ℤ
  pub note : Text

pub record Obligation : Type 0 where
  pub account : Text
  pub month : Text
  pub amount_cents : ℤ
  pub currency : Text
  pub due_date : ℤ
  pub state : ObligationState
  pub provider_transfer_ref : Text
  pub history : List ObligationEvent

-- obligationTransitions
unfoldable pub transitions : ObligationState → List ObligationState
transitions estimated = earned ∷ []
transitions earned = owed ∷ []
transitions owed = initiated ∷ []
transitions initiated = settled ∷ owed ∷ []
transitions settled = owed ∷ []
transitions (other_state s) = []

-- ObligationID and Obligation.ID
unfoldable pub obligation_id : Text → Text → Text
obligation_id m account = m ++ b':' ∷ account

unfoldable pub id_of : Obligation → Text
unfolding obligation_id
id_of o = obligation_id o.month o.account

abbrev pub state_eq : ObligationState → ObligationState → Bool
state_eq estimated estimated = true
state_eq earned earned = true
state_eq owed owed = true
state_eq initiated initiated = true
state_eq settled settled = true
state_eq (other_state s) (other_state t) = text_eq s t
state_eq _ _ = false

-- The search of Transition through the legal targets.
unfoldable pub is_legal : ObligationState → List ObligationState → Bool
is_legal to [] = false
is_legal to (legal ∷ rest) = state_eq legal to || is_legal to rest

-- Obligation.Transition
unfoldable pub transition : Obligation → ObligationState → ℤ → Text → Result Obligation
unfolding transitions is_legal
transition o to at note =
    if is_legal to (transitions o.state)
    then ok (record o {
      history =
          o.history ++ record { from_state = o.state; to_state = to; at = at; note = note } ∷ [];
      state = to;
    })
    else err illegal_transition
