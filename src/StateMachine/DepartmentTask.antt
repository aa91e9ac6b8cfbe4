-- ===== src/StateMachine/DepartmentTask.antt =====
-- sidecar/ibreeze/state_machine.py: `DepartmentTaskState` and `_DEPARTMENT_TASK_TRANSITIONS`.
use i_breeze.Prelude.{String, List, [], ◌∷◌, ◌≡◌, refl, some}
use i_breeze.StateMachine.Entity.{Entity, of_value}

pub data DepartmentTaskState : Type 0 where
  draft checking_resources ready executing reviewing fixing completed waiting_dependency
        waiting_resource waiting_permission paused cancelled failed :
      DepartmentTaskState

-- `.value` of the StrEnum members
unfoldable pub department_task_value : DepartmentTaskState → String
department_task_value draft = "draft"
department_task_value checking_resources = "checking_resources"
department_task_value ready = "ready"
department_task_value executing = "executing"
department_task_value reviewing = "reviewing"
department_task_value fixing = "fixing"
department_task_value completed = "completed"
department_task_value waiting_dependency = "waiting_dependency"
department_task_value waiting_resource = "waiting_resource"
department_task_value waiting_permission = "waiting_permission"
department_task_value paused = "paused"
department_task_value cancelled = "cancelled"
department_task_value failed = "failed"

-- the keys of the table, in the order of the dict
unfoldable pub department_task_states : List DepartmentTaskState
department_task_states =
    draft ∷ checking_resources ∷ ready ∷ executing ∷ reviewing ∷ fixing ∷ paused
    ∷ waiting_dependency ∷ waiting_resource ∷ waiting_permission ∷ completed ∷ cancelled ∷ failed
    ∷ []

unfoldable pub department_task_transitions : DepartmentTaskState → List DepartmentTaskState
department_task_transitions draft = checking_resources ∷ cancelled ∷ []
department_task_transitions checking_resources =
    ready ∷ waiting_resource ∷ waiting_permission ∷ paused ∷ cancelled ∷ failed ∷ []
department_task_transitions ready =
    executing ∷ waiting_dependency ∷ waiting_resource ∷ waiting_permission ∷ paused ∷ cancelled
    ∷ failed ∷ []
department_task_transitions executing =
    reviewing ∷ waiting_resource ∷ waiting_permission ∷ paused ∷ cancelled ∷ failed ∷ []
department_task_transitions reviewing =
    fixing ∷ completed ∷ waiting_resource ∷ waiting_permission ∷ paused ∷ cancelled ∷ failed ∷ []
department_task_transitions fixing =
    reviewing ∷ waiting_resource ∷ waiting_permission ∷ paused ∷ cancelled ∷ failed ∷ []
department_task_transitions paused =
    checking_resources ∷ ready ∷ executing ∷ reviewing ∷ fixing ∷ cancelled ∷ failed ∷ []
department_task_transitions waiting_dependency = paused ∷ cancelled ∷ failed ∷ []
department_task_transitions waiting_resource = cancelled ∷ failed ∷ []
department_task_transitions waiting_permission = cancelled ∷ failed ∷ []
department_task_transitions completed = []
department_task_transitions cancelled = []
department_task_transitions failed = []

abbrev pub department_task_entity : Entity DepartmentTaskState
department_task_entity = record {
  states = department_task_states;
  value = department_task_value;
  targets = department_task_transitions;
}

-- Every state is a key of the table, under its own value.
pub department_task-of_value :
    (s : DepartmentTaskState) → of_value department_task_entity (department_task_value s) ≡ some s
unfolding of_value department_task_states department_task_value
department_task-of_value draft = refl
department_task-of_value _ = refl
