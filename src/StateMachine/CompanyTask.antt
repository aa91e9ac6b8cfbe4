-- ===== src/StateMachine/CompanyTask.antt =====
-- sidecar/ibreeze/state_machine.py: `CompanyTaskState` and `_COMPANY_TASK_TRANSITIONS`.
use i_breeze.Prelude.{String, List, [], ◌∷◌, ◌≡◌, refl, some}
use i_breeze.StateMachine.Entity.{Entity, of_value}

pub data CompanyTaskState : Type 0 where
  draft analyzing awaiting_user_confirmation revision_requested approved rejected dispatching
        checking_resources executing reviewing fixing final_review completed waiting_dependency
        waiting_resource waiting_permission paused cancelling cancelled failed :
      CompanyTaskState

-- `.value` of the StrEnum members
unfoldable pub company_task_value : CompanyTaskState → String
company_task_value draft = "draft"
company_task_value analyzing = "analyzing"
company_task_value awaiting_user_confirmation = "awaiting_user_confirmation"
company_task_value revision_requested = "revision_requested"
company_task_value approved = "approved"
company_task_value rejected = "rejected"
company_task_value dispatching = "dispatching"
company_task_value checking_resources = "checking_resources"
company_task_value executing = "executing"
company_task_value reviewing = "reviewing"
company_task_value fixing = "fixing"
company_task_value final_review = "final_review"
company_task_value completed = "completed"
company_task_value waiting_dependency = "waiting_dependency"
company_task_value waiting_resource = "waiting_resource"
company_task_value waiting_permission = "waiting_permission"
company_task_value paused = "paused"
company_task_value cancelling = "cancelling"
company_task_value cancelled = "cancelled"
company_task_value failed = "failed"

-- the keys of the table, in the order of the dict
unfoldable pub company_task_states : List CompanyTaskState
company_task_states =
    draft ∷ analyzing ∷ awaiting_user_confirmation ∷ revision_requested ∷ approved ∷ dispatching
    ∷ checking_resources ∷ executing ∷ reviewing ∷ fixing ∷ final_review ∷ waiting_dependency
    ∷ waiting_resource ∷ waiting_permission ∷ paused ∷ cancelling ∷ rejected ∷ completed ∷ cancelled
    ∷ failed ∷ []

unfoldable pub company_task_transitions : CompanyTaskState → List CompanyTaskState
company_task_transitions draft = analyzing ∷ cancelling ∷ []
company_task_transitions analyzing =
    awaiting_user_confirmation ∷ waiting_resource ∷ cancelling ∷ failed ∷ []
company_task_transitions awaiting_user_confirmation =
    approved ∷ revision_requested ∷ rejected ∷ cancelling ∷ []
company_task_transitions revision_requested = analyzing ∷ rejected ∷ cancelling ∷ []
company_task_transitions approved = dispatching ∷ cancelling ∷ []
company_task_transitions dispatching =
    checking_resources ∷ waiting_dependency ∷ waiting_resource ∷ cancelling ∷ failed ∷ []
company_task_transitions checking_resources =
    executing ∷ waiting_dependency ∷ waiting_resource ∷ waiting_permission ∷ cancelling ∷ failed
    ∷ []
company_task_transitions executing =
    reviewing ∷ waiting_dependency ∷ waiting_resource ∷ waiting_permission ∷ paused ∷ cancelling
    ∷ failed ∷ []
company_task_transitions reviewing =
    fixing ∷ final_review ∷ waiting_resource ∷ waiting_permission ∷ paused ∷ cancelling ∷ failed
    ∷ []
company_task_transitions fixing =
    reviewing ∷ waiting_resource ∷ waiting_permission ∷ paused ∷ cancelling ∷ failed ∷ []
company_task_transitions final_review =
    completed ∷ fixing ∷ waiting_resource ∷ waiting_permission ∷ paused ∷ cancelling ∷ failed ∷ []
company_task_transitions waiting_dependency = cancelling ∷ failed ∷ []
company_task_transitions waiting_resource = cancelling ∷ failed ∷ []
company_task_transitions waiting_permission = cancelling ∷ failed ∷ []
company_task_transitions paused = cancelling ∷ failed ∷ []
company_task_transitions cancelling = cancelled ∷ failed ∷ []
company_task_transitions rejected = []
company_task_transitions completed = []
company_task_transitions cancelled = []
company_task_transitions failed = []

abbrev pub company_task_entity : Entity CompanyTaskState
company_task_entity = record {
  states = company_task_states;
  value = company_task_value;
  targets = company_task_transitions;
}

-- Every state is a key of the table, under its own value.
pub company_task-of_value :
    (s : CompanyTaskState) → of_value company_task_entity (company_task_value s) ≡ some s
unfolding of_value company_task_states company_task_value
company_task-of_value draft = refl
company_task-of_value _ = refl
