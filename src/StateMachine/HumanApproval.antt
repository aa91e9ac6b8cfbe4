-- ===== src/StateMachine/HumanApproval.antt =====
-- sidecar/ibreeze/state_machine.py: `HumanApprovalState` and `_HUMAN_APPROVAL_TRANSITIONS`.
use i_breeze.Prelude.{String, List, [], ◌∷◌, ◌≡◌, refl, some}
use i_breeze.StateMachine.Entity.{Entity, of_value}

pub data HumanApprovalState : Type 0 where
  pending allowed denied expired consumed : HumanApprovalState

-- `.value` of the StrEnum members
unfoldable pub human_approval_value : HumanApprovalState → String
human_approval_value pending = "pending"
human_approval_value allowed = "allowed"
human_approval_value denied = "denied"
human_approval_value expired = "expired"
human_approval_value consumed = "consumed"

-- the keys of the table, in the order of the dict
unfoldable pub human_approval_states : List HumanApprovalState
human_approval_states = pending ∷ allowed ∷ denied ∷ expired ∷ consumed ∷ []

unfoldable pub human_approval_transitions : HumanApprovalState → List HumanApprovalState
human_approval_transitions pending = allowed ∷ denied ∷ expired ∷ []
human_approval_transitions allowed = consumed ∷ expired ∷ []
human_approval_transitions denied = []
human_approval_transitions expired = []
human_approval_transitions consumed = []

abbrev pub human_approval_entity : Entity HumanApprovalState
human_approval_entity = record {
  states = human_approval_states;
  value = human_approval_value;
  targets = human_approval_transitions;
}

-- Every state is a key of the table, under its own value.
pub human_approval-of_value :
    (s : HumanApprovalState) → of_value human_approval_entity (human_approval_value s) ≡ some s
unfolding of_value human_approval_states human_approval_value
human_approval-of_value pending = refl
human_approval-of_value _ = refl
