-- ===== src/StateMachine/Registry.antt =====
-- sidecar/ibreeze/state_machine.py: `_TRANSITION_TABLES` and the functions over the tables.
use i_breeze.Prelude.{
  lookup, String, Bool, true, false, ◌&&◌, not, List, [], ◌∷◌, Option, none, some, str_eq, contains,
  if◌then◌else◌,
}
use i_breeze.Result.{Result, ok, err, ◌>>=◌}
use i_breeze.StateMachine.Entity.{Table, table}
use i_breeze.StateMachine.CompanyTask.{company_task_entity}
use i_breeze.StateMachine.DepartmentTask.{department_task_entity}
use i_breeze.StateMachine.EmployeeTask.{employee_task_entity}
use i_breeze.StateMachine.AgentRun.{agent_run_entity}
use i_breeze.StateMachine.ReviewAssignment.{review_assignment_entity}
use i_breeze.StateMachine.ReviewIssue.{review_issue_entity}
use i_breeze.StateMachine.CompanyPlanVersion.{company_plan_version_entity}
use i_breeze.StateMachine.TaskWorkspace.{task_workspace_entity}
use i_breeze.StateMachine.HumanApproval.{human_approval_entity}

-- The exceptions, with the values that their messages show.
pub data TransitionError : Type 0 where
  unknown_entity : String → TransitionError
  unknown_state : String → String → TransitionError
  state_transition_error : String → String → String → TransitionError
  resume_state_required : String → TransitionError
  resume_state_missing : String → String → TransitionError
  resume_state_must_be_null : String → String → TransitionError

unfoldable pub transition_tables : List (String × Table)
transition_tables =
    ("CompanyTask", table company_task_entity)
    ∷ ("DepartmentTask", table department_task_entity)
    ∷ ("EmployeeTask", table employee_task_entity)
    ∷ ("AgentRun", table agent_run_entity)
    ∷ ("ReviewAssignment", table review_assignment_entity)
    ∷ ("ReviewIssue", table review_issue_entity)
    ∷ ("CompanyPlanVersion", table company_plan_version_entity)
    ∷ ("TaskWorkspace", table task_workspace_entity)
    ∷ ("HumanApproval", table human_approval_entity)
    ∷ []

abbrev pub or_raise {ℓ κ} : {E : Type ℓ} {A : Type κ} → E → Option A → Result E A
or_raise e none = err e
or_raise e (some a) = ok a

-- The targets of `state`, or the ValueError that each of the three functions raises.
unfoldable pub targets_of : String → String → Result TransitionError (List String)
targets_of entity state = do
  rows ← or_raise (unknown_entity entity) (lookup entity transition_tables)
  or_raise (unknown_state entity state) (lookup state rows)

abbrev pub is_empty {ℓ} : {A : Type ℓ} → List A → Bool
is_empty [] = true
is_empty (_ ∷ _) = false

unfoldable pub is_terminal : String → String → Result TransitionError Bool
is_terminal entity state = do targets ← targets_of entity state; ok (is_empty targets)

unfoldable pub get_allowed_targets : String → String → Result TransitionError (List String)
get_allowed_targets entity current = targets_of entity current

unfoldable pub waiting_states : List String
waiting_states =
    "waiting_dependency" ∷ "waiting_resource" ∷ "waiting_permission" ∷ "paused" ∷ "waiting_approval"
    ∷ []

unfoldable pub is_waiting : String → Bool
unfolding waiting_states
is_waiting state = contains state waiting_states

-- `target == resume_state`
abbrev pub is_resume : Option String → String → Bool
is_resume none target = false
is_resume (some r) target = str_eq r target

unfoldable pub can_transition :
    String → String → String → Option String → Result TransitionError Bool
can_transition entity current target resume_state = do
  targets ← targets_of entity current
  ok (
      if contains target targets
      then true
      else if is_waiting current && is_resume resume_state target
      then true
      else false)

-- The outcome of a transition that is allowed: the resume state to clear, if one is left.
unfoldable pub released : String → String → Option String → Result TransitionError (Option String)
released current target none =
    if is_waiting target then err (resume_state_required target) else ok none
released current target (some r) =
    if is_waiting target then ok none else if is_waiting current then ok (some r) else ok none

unfoldable pub transition :
    String → String → String → Option String → Result TransitionError (Option String)
unfolding released
transition entity current target resume_state = do
  allowed ← can_transition entity current target resume_state
  if allowed
      then released current target resume_state
      else err (state_transition_error entity current target)

unfoldable pub validate_resume_state :
    String → String → Option String → Result TransitionError (Unit {0})
validate_resume_state entity current none =
    if is_waiting current then err (resume_state_missing entity current) else ok tt
validate_resume_state entity current (some _) =
    if not (is_waiting current) then err (resume_state_must_be_null entity current) else ok tt
