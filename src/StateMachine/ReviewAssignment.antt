-- ===== src/StateMachine/ReviewAssignment.antt =====
-- sidecar/ibreeze/state_machine.py: `ReviewAssignmentState` and `_REVIEW_ASSIGNMENT_TRANSITIONS`.
use i_breeze.Prelude.{String, List, [], ◌∷◌, ◌≡◌, refl, some}
use i_breeze.StateMachine.Entity.{Entity, of_value}

pub data ReviewAssignmentState : Type 0 where
  assigned in_review submitted stale cancelled : ReviewAssignmentState

-- `.value` of the StrEnum members
unfoldable pub review_assignment_value : ReviewAssignmentState → String
review_assignment_value assigned = "assigned"
review_assignment_value in_review = "in_review"
review_assignment_value submitted = "submitted"
review_assignment_value stale = "stale"
review_assignment_value cancelled = "cancelled"

-- the keys of the table, in the order of the dict
unfoldable pub review_assignment_states : List ReviewAssignmentState
review_assignment_states = assigned ∷ in_review ∷ submitted ∷ stale ∷ cancelled ∷ []

unfoldable pub review_assignment_transitions : ReviewAssignmentState → List ReviewAssignmentState
review_assignment_transitions assigned = in_review ∷ stale ∷ cancelled ∷ []
review_assignment_transitions in_review = submitted ∷ stale ∷ cancelled ∷ []
review_assignment_transitions submitted = stale ∷ []
review_assignment_transitions stale = []
review_assignment_transitions cancelled = []

abbrev pub review_assignment_entity : Entity ReviewAssignmentState
review_assignment_entity = record {
  states = review_assignment_states;
  value = review_assignment_value;
  targets = review_assignment_transitions;
}

-- Every state is a key of the table, under its own value.
pub review_assignment-of_value :
    (s : ReviewAssignmentState)
    → of_value review_assignment_entity (review_assignment_value s) ≡ some s
unfolding of_value review_assignment_states review_assignment_value
review_assignment-of_value assigned = refl
review_assignment-of_value _ = refl
