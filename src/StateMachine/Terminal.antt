-- ===== src/StateMachine/Terminal.antt =====
-- Terminal states of the machines of sidecar/ibreeze/state_machine.py: nothing leaves them, and every
-- other state can reach one.
use i_breeze.Prelude.{Bool, String, ◌≡◌, refl, true, false, List, [], ◌∷◌, map, Option, arith}
use i_breeze.Result.{Result, Result, ok, err}
use i_breeze.StateMachine.Registry.{
  TransitionError, state_transition_error, is_waiting, is_terminal, is_empty, can_transition,
  transition,
}
use i_breeze.StateMachine.Machines.{
  Machine, company_task, department_task, employee_task, agent_run, review_assignment, review_issue,
  company_plan_version, task_workspace, human_approval, State, name, value, targets,
  targets_of-value,
}
use i_breeze.StateMachine.CompanyTask.{
  draft as first_company_task, company_task_value, company_task_transitions,
}
use i_breeze.StateMachine.DepartmentTask.{
  draft as first_department_task, department_task_value, department_task_transitions,
}
use i_breeze.StateMachine.EmployeeTask.{
  assigned as first_employee_task, employee_task_value, employee_task_transitions,
}
use i_breeze.StateMachine.AgentRun.{
  queued as first_agent_run, agent_run_value, agent_run_transitions,
}
use i_breeze.StateMachine.ReviewAssignment.{
  assigned as first_review_assignment, review_assignment_value, review_assignment_transitions,
}
use i_breeze.StateMachine.ReviewIssue.{
  opened as first_review_issue, review_issue_value, review_issue_transitions,
}
use i_breeze.StateMachine.CompanyPlanVersion.{
  draft as first_company_plan_version, company_plan_version_value, company_plan_version_transitions,
}
use i_breeze.StateMachine.TaskWorkspace.{
  preparing as first_task_workspace, task_workspace_value, task_workspace_transitions,
}
use i_breeze.StateMachine.HumanApproval.{
  pending as first_human_approval, human_approval_value, human_approval_transitions,
}

-- No terminal state is a waiting state.
company_task_terminal :
    (s : State company_task)
    → targets company_task s ≡ []
    → is_waiting (value company_task s) ≡ false
unfolding is_waiting company_task_value company_task_transitions
company_task_terminal first_company_task h = refl
company_task_terminal _ h = ground arith

department_task_terminal :
    (s : State department_task)
    → targets department_task s ≡ []
    → is_waiting (value department_task s) ≡ false
unfolding is_waiting department_task_value department_task_transitions
department_task_terminal first_department_task h = refl
department_task_terminal _ h = ground arith

employee_task_terminal :
    (s : State employee_task)
    → targets employee_task s ≡ []
    → is_waiting (value employee_task s) ≡ false
unfolding is_waiting employee_task_value employee_task_transitions
employee_task_terminal first_employee_task h = refl
employee_task_terminal _ h = ground arith

agent_run_terminal :
    (s : State agent_run) → targets agent_run s ≡ [] → is_waiting (value agent_run s) ≡ false
unfolding is_waiting agent_run_value agent_run_transitions
agent_run_terminal first_agent_run h = refl
agent_run_terminal _ h = ground arith

review_assignment_terminal :
    (s : State review_assignment)
    → targets review_assignment s ≡ []
    → is_waiting (value review_assignment s) ≡ false
unfolding is_waiting review_assignment_value review_assignment_transitions
review_assignment_terminal first_review_assignment h = refl
review_assignment_terminal _ h = ground arith

review_issue_terminal :
    (s : State review_issue)
    → targets review_issue s ≡ []
    → is_waiting (value review_issue s) ≡ false
unfolding is_waiting review_issue_value review_issue_transitions
review_issue_terminal first_review_issue h = refl
review_issue_terminal _ h = ground arith

company_plan_version_terminal :
    (s : State company_plan_version)
    → targets company_plan_version s ≡ []
    → is_waiting (value company_plan_version s) ≡ false
unfolding is_waiting company_plan_version_value company_plan_version_transitions
company_plan_version_terminal first_company_plan_version h = refl
company_plan_version_terminal _ h = ground arith

task_workspace_terminal :
    (s : State task_workspace)
    → targets task_workspace s ≡ []
    → is_waiting (value task_workspace s) ≡ false
unfolding is_waiting task_workspace_value task_workspace_transitions
task_workspace_terminal first_task_workspace h = refl
task_workspace_terminal _ h = ground arith

human_approval_terminal :
    (s : State human_approval)
    → targets human_approval s ≡ []
    → is_waiting (value human_approval s) ≡ false
unfolding is_waiting human_approval_value human_approval_transitions
human_approval_terminal first_human_approval h = refl
human_approval_terminal _ h = ground arith

IsTerminal-not_waits :
    (m : Machine) (s : State m) → targets m s ≡ [] → is_waiting (value m s) ≡ false
IsTerminal-not_waits company_task = company_task_terminal
IsTerminal-not_waits department_task = department_task_terminal
IsTerminal-not_waits employee_task = employee_task_terminal
IsTerminal-not_waits agent_run = agent_run_terminal
IsTerminal-not_waits review_assignment = review_assignment_terminal
IsTerminal-not_waits review_issue = review_issue_terminal
IsTerminal-not_waits company_plan_version = company_plan_version_terminal
IsTerminal-not_waits task_workspace = task_workspace_terminal
IsTerminal-not_waits human_approval = human_approval_terminal

is_terminal→targets :
    (m : Machine) (s : State m) → is_terminal (name m) (value m s) ≡ ok true → targets m s ≡ []
unfolding is_terminal
is_terminal→targets m s h = go (targets m s) (rw targets_of-value at h)
  where
    go :
        (xs : List (State m))
        → ◌≡◌ {A = Result TransitionError Bool} (ok (is_empty (map (value m) xs))) (ok true)
        → xs ≡ []
    go [] e = refl
    go (x ∷ xs) e = cc

-- From a state that `is_terminal` accepts, every transition, to any text and with any resume state, is
-- refused.
pub terminal_absorbs :
    (m : Machine) (s : State m) (target : String) (resume : Option String)
    → is_terminal (name m) (value m s) ≡ ok true
    → transition (name m) (value m s) target resume
      ≡ err (state_transition_error (name m) (value m s) target)
unfolding is_terminal transition can_transition
terminal_absorbs m s target resume h =
    let e = is_terminal→targets m s h in rw (targets_of-value, e, IsTerminal-not_waits m s e)
