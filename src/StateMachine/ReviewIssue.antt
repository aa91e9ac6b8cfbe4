-- ===== src/StateMachine/ReviewIssue.antt =====
-- sidecar/ibreeze/state_machine.py: `ReviewIssueState` and `_REVIEW_ISSUE_TRANSITIONS`.
use i_breeze.Prelude.{String, List, [], ◌∷◌, ◌≡◌, refl, some}
use i_breeze.StateMachine.Entity.{Entity, of_value}

pub data ReviewIssueState : Type 0 where
  opened fixing resolved verified closed rejected : ReviewIssueState

-- `.value` of the StrEnum members; `opened` stands for OPEN, `open` being reserved
unfoldable pub review_issue_value : ReviewIssueState → String
review_issue_value opened = "open"
review_issue_value fixing = "fixing"
review_issue_value resolved = "resolved"
review_issue_value verified = "verified"
review_issue_value closed = "closed"
review_issue_value rejected = "rejected"

-- the keys of the table, in the order of the dict
unfoldable pub review_issue_states : List ReviewIssueState
review_issue_states = opened ∷ fixing ∷ resolved ∷ verified ∷ closed ∷ rejected ∷ []

unfoldable pub review_issue_transitions : ReviewIssueState → List ReviewIssueState
review_issue_transitions opened = fixing ∷ rejected ∷ []
review_issue_transitions fixing = resolved ∷ []
review_issue_transitions resolved = verified ∷ fixing ∷ []
review_issue_transitions verified = closed ∷ fixing ∷ []
review_issue_transitions closed = []
review_issue_transitions rejected = []

abbrev pub review_issue_entity : Entity ReviewIssueState
review_issue_entity = record {
  states = review_issue_states;
  value = review_issue_value;
  targets = review_issue_transitions;
}

-- Every state is a key of the table, under its own value.
pub review_issue-of_value :
    (s : ReviewIssueState) → of_value review_issue_entity (review_issue_value s) ≡ some s
unfolding of_value review_issue_states review_issue_value
review_issue-of_value opened = refl
review_issue-of_value _ = refl
