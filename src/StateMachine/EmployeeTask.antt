-- ===== src/StateMachine/EmployeeTask.antt =====
-- sidecar/ibreeze/state_machine.py: `EmployeeTaskState` and `_EMPLOYEE_TASK_TRANSITIONS`.
use i_breeze.Prelude.{String, List, [], ◌∷◌, ◌≡◌, refl, some}
use i_breeze.StateMachine.Entity.{Entity, of_value}

pub data EmployeeTaskState : Type 0 where
  assigned ready running submitted peer_reviewing changes_requested accepted waiting_resource paused
        cancelled failed needs_review needs_rework :
      EmployeeTaskState

-- `.value` of the StrEnum members
unfoldable pub employee_task_value : EmployeeTaskState → String
employee_task_value assigned = "assigned"
employee_task_value ready = "ready"
employee_task_value running = "running"
employee_task_value submitted = "submitted"
employee_task_value peer_reviewing = "peer_reviewing"
employee_task_value changes_requested = "changes_requested"
employee_task_value accepted = "accepted"
employee_task_value waiting_resource = "waiting_resource"
employee_task_value paused = "paused"
employee_task_value cancelled = "cancelled"
employee_task_value failed = "failed"
employee_task_value needs_review = "needs_review"
employee_task_value needs_rework = "needs_rework"

-- the keys of the table, in the order of the dict
unfoldable pub employee_task_states : List EmployeeTaskState
employee_task_states =
    assigned ∷ ready ∷ running ∷ submitted ∷ peer_reviewing ∷ changes_requested ∷ needs_review
    ∷ needs_rework ∷ waiting_resource ∷ paused ∷ accepted ∷ cancelled ∷ failed ∷ []

unfoldable pub employee_task_transitions : EmployeeTaskState → List EmployeeTaskState
employee_task_transitions assigned = ready ∷ waiting_resource ∷ paused ∷ cancelled ∷ failed ∷ []
employee_task_transitions ready = running ∷ waiting_resource ∷ paused ∷ cancelled ∷ failed ∷ []
employee_task_transitions running =
    submitted ∷ needs_review ∷ needs_rework ∷ waiting_resource ∷ paused ∷ cancelled ∷ failed ∷ []
employee_task_transitions submitted = peer_reviewing ∷ paused ∷ failed ∷ []
employee_task_transitions peer_reviewing = changes_requested ∷ accepted ∷ paused ∷ failed ∷ []
employee_task_transitions changes_requested =
    ready ∷ waiting_resource ∷ paused ∷ cancelled ∷ failed ∷ []
employee_task_transitions needs_review = ready ∷ waiting_resource ∷ paused ∷ cancelled ∷ failed ∷ []
employee_task_transitions needs_rework = ready ∷ waiting_resource ∷ paused ∷ cancelled ∷ failed ∷ []
employee_task_transitions waiting_resource = paused ∷ cancelled ∷ failed ∷ []
employee_task_transitions paused = ready ∷ running ∷ cancelled ∷ failed ∷ []
employee_task_transitions accepted = []
employee_task_transitions cancelled = []
employee_task_transitions failed = []

abbrev pub employee_task_entity : Entity EmployeeTaskState
employee_task_entity = record {
  states = employee_task_states;
  value = employee_task_value;
  targets = employee_task_transitions;
}

-- Every state is a key of the table, under its own value.
pub employee_task-of_value :
    (s : EmployeeTaskState) → of_value employee_task_entity (employee_task_value s) ≡ some s
unfolding of_value employee_task_states employee_task_value
employee_task-of_value assigned = refl
employee_task-of_value _ = refl
