-- ===== src/StateMachine/Machines.antt =====
-- The nine state machines of sidecar/ibreeze/state_machine.py as one family, and what the functions
-- over texts find in their tables.
use i_breeze.Prelude.{
  lookup, String, ◌≡◌, refl, sym, ap, true, List, [], ◌∷◌, map, Memᴰ, some, arith, str_eq, eq_iff,
  inl, inr, contains, Bool-cases,
}
use i_breeze.Result.{ok}
use i_breeze.StateMachine.Entity.{Entity, of_value, first_with, rows, table}
use i_breeze.StateMachine.Registry.{transition_tables, targets_of}
use i_breeze.StateMachine.CompanyTask.{CompanyTaskState, company_task_entity, company_task-of_value}
use i_breeze.StateMachine.DepartmentTask.{
  DepartmentTaskState, department_task_entity, department_task-of_value,
}
use i_breeze.StateMachine.EmployeeTask.{
  EmployeeTaskState, employee_task_entity, employee_task-of_value,
}
use i_breeze.StateMachine.AgentRun.{AgentRunState, agent_run_entity, agent_run-of_value}
use i_breeze.StateMachine.ReviewAssignment.{
  ReviewAssignmentState, review_assignment_entity, review_assignment-of_value,
}
use i_breeze.StateMachine.ReviewIssue.{ReviewIssueState, review_issue_entity, review_issue-of_value}
use i_breeze.StateMachine.CompanyPlanVersion.{
  CompanyPlanVersionState, company_plan_version_entity, company_plan_version-of_value,
}
use i_breeze.StateMachine.TaskWorkspace.{
  TaskWorkspaceState, task_workspace_entity, task_workspace-of_value,
}
use i_breeze.StateMachine.HumanApproval.{
  HumanApprovalState, human_approval_entity, human_approval-of_value,
}

pub data Machine : Type 0 where
  company_task department_task employee_task agent_run review_assignment review_issue
        company_plan_version task_workspace human_approval :
      Machine

abbrev pub State : Machine → Type 0
State company_task = CompanyTaskState
State department_task = DepartmentTaskState
State employee_task = EmployeeTaskState
State agent_run = AgentRunState
State review_assignment = ReviewAssignmentState
State review_issue = ReviewIssueState
State company_plan_version = CompanyPlanVersionState
State task_workspace = TaskWorkspaceState
State human_approval = HumanApprovalState

abbrev pub entity : (m : Machine) → Entity (State m)
entity company_task = company_task_entity
entity department_task = department_task_entity
entity employee_task = employee_task_entity
entity agent_run = agent_run_entity
entity review_assignment = review_assignment_entity
entity review_issue = review_issue_entity
entity company_plan_version = company_plan_version_entity
entity task_workspace = task_workspace_entity
entity human_approval = human_approval_entity

-- the key of `_TRANSITION_TABLES`
abbrev pub name : Machine → String
name company_task = "CompanyTask"
name department_task = "DepartmentTask"
name employee_task = "EmployeeTask"
name agent_run = "AgentRun"
name review_assignment = "ReviewAssignment"
name review_issue = "ReviewIssue"
name company_plan_version = "CompanyPlanVersion"
name task_workspace = "TaskWorkspace"
name human_approval = "HumanApproval"

abbrev pub value : (m : Machine) → State m → String
value m = (entity m).value

abbrev pub targets : (m : Machine) → State m → List (State m)
targets m = (entity m).targets

of_value-value : (m : Machine) (s : State m) → of_value (entity m) (value m s) ≡ some s
of_value-value company_task s = company_task-of_value s
of_value-value department_task s = department_task-of_value s
of_value-value employee_task s = employee_task-of_value s
of_value-value agent_run s = agent_run-of_value s
of_value-value review_assignment s = review_assignment-of_value s
of_value-value review_issue s = review_issue-of_value s
of_value-value company_plan_version s = company_plan_version-of_value s
of_value-value task_workspace s = task_workspace-of_value s
of_value-value human_approval s = human_approval-of_value s

lookup-name : (m : Machine) → lookup (name m) transition_tables ≡ some (table (entity m))
unfolding lookup transition_tables
lookup-name company_task = refl
lookup-name department_task = refl
lookup-name employee_task = refl
lookup-name agent_run = refl
lookup-name review_assignment = refl
lookup-name review_issue = refl
lookup-name company_plan_version = refl
lookup-name task_workspace = refl
lookup-name human_approval = refl

lookup-rows :
    {S : Type 0} (e : Entity S) (v : String) (xs : List S) (s : S)
    → first_with e.value v xs ≡ some s
    → lookup v (rows e xs) ≡ some (map e.value (e.targets s))
unfolding lookup first_with
lookup-rows e v [] s h = ground arith
lookup-rows e v (x ∷ xs) s h = ground (arith, lookup-rows e v xs s)

pub targets_of-value :
    (m : Machine) (s : State m) → targets_of (name m) (value m s) ≡ ok (map (value m) (targets m s))
unfolding targets_of of_value
targets_of-value m s =
    rw lookup-name
      (rw (lookup-rows (entity m) (value m s) (entity m).states s (of_value-value m s)))

-- Two states of one machine are told apart by their values.
pub value-injective : (m : Machine) (s t : State m) → value m s ≡ value m t → s ≡ t
value-injective m s t h = cc (of_value-value m s, of_value-value m t, ap (of_value (entity m)) h)

pub contains→Target :
    (m : Machine) (t : State m) (xs : List (State m))
    → contains (value m t) (map (value m) xs) ≡ true
    → Memᴰ t xs
contains→Target m t [] h = ground arith
contains→Target m t (x ∷ xs) h = elim (Bool-cases (str_eq (value m x) (value m t))) [
  | inl e ↦ Memᴰ.head (value-injective m t x (sym ((eq_iff _ _).0 e)))
  | inr e ↦ Memᴰ.tail (contains→Target m t xs (rw e at h))
]

pub Target→contains :
    (m : Machine) (t : State m) (xs : List (State m))
    → Memᴰ t xs
    → contains (value m t) (map (value m) xs) ≡ true
Target→contains m t [] h = elim h [ ]
Target→contains m t (x ∷ xs) (Memᴰ.head e) = rw (← e, (eq_iff (value m t) (value m t)).1 refl)
Target→contains m t (x ∷ xs) (Memᴰ.tail h) = elim (Bool-cases (str_eq (value m x) (value m t))) [
  | inl e ↦ rw e
  | inr e ↦ rw e (Target→contains m t xs h)
]
