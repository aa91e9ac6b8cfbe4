-- ===== src/StateMachine/Finish.antt =====
-- From every state of the machines of sidecar/ibreeze/state_machine.py a terminal state can be reached.
pub mod Escape
use i_breeze.Prelude.{
  leb, leb→le, length, ◌≤◌, ◌≡◌, refl, ap, ◌∙◌, Bool, true, false, ◌&&◌, not, List, [], ◌∷◌, map,
  Memᴰ, arith, contains, Bool-cases, inl, inr, and-eq_true, none, Option, some, if◌then◌else◌,
}
use mathlib.Core.Option
use i_breeze.Result.{Result, ok, ◌>>=◌}
use i_breeze.StateMachine.Registry.{
  TransitionError, is_empty, is_waiting, is_terminal, transition, released,
}
use i_breeze.StateMachine.Machines.{
  Machine, company_task, department_task, employee_task, agent_run, review_assignment, review_issue,
  company_plan_version, task_workspace, human_approval, State, name, value, targets,
  targets_of-value, contains→Target,
}
use i_breeze.StateMachine.Outcomes.{
  Waits, Outcome, refused, no_resume, entered, left, moved, edge, transition-Outcome,
}
use i_breeze.StateMachine.Walk.{Row, landing, walk, advance-edge}
use i_breeze.StateMachine.CompanyTask.{
  CompanyTaskState, company_task_value, company_task_transitions,
}
use i_breeze.StateMachine.DepartmentTask.{
  DepartmentTaskState, department_task_value, department_task_transitions,
}
use i_breeze.StateMachine.EmployeeTask.{
  EmployeeTaskState, employee_task_value, employee_task_transitions,
}
use i_breeze.StateMachine.AgentRun.{AgentRunState, agent_run_value, agent_run_transitions}
use i_breeze.StateMachine.ReviewAssignment.{
  ReviewAssignmentState, review_assignment_value, review_assignment_transitions,
}
use i_breeze.StateMachine.ReviewIssue.{
  ReviewIssueState, review_issue_value, review_issue_transitions,
}
use i_breeze.StateMachine.CompanyPlanVersion.{
  CompanyPlanVersionState, company_plan_version_value, company_plan_version_transitions,
}
use i_breeze.StateMachine.TaskWorkspace.{
  TaskWorkspaceState, task_workspace_value, task_workspace_transitions,
}
use i_breeze.StateMachine.HumanApproval.{
  HumanApprovalState, human_approval_value, human_approval_transitions,
}
use Escape.{escape, is_route, is_good, escape-is_good}

terminal_of_empty :
    (m : Machine) (s : State m)
    → is_empty (targets m s) ≡ true
    → is_terminal (name m) (value m s) ≡ ok true
unfolding is_terminal
terminal_of_empty m s h = rw targets_of-value (ap ok (go (targets m s) h))
  where
    go : (xs : List (State m)) → is_empty xs ≡ true → is_empty (map (value m) xs) ≡ true
    go [] e = refl
    go (x ∷ xs) e = cc

module _ {m : Machine} where
  walk-route :
      (r : Row m) (ts : List (State m))
      → is_route m r.status ts ≡ true
      → (r' : Row m) × (walk r ts ≡ ok r') × (is_terminal (name m) (value m r'.status) ≡ ok true)
  unfolding walk
  walk-route r [] h = (r, refl, terminal_of_empty m r.status h)
  walk-route r (t ∷ ts) h =
      let on_edge = contains (value m t) (map (value m) (targets m r.status)) in
      let moves = not (is_waiting (value m t)) in
      let a = and-eq_true (on_edge && moves) (is_route m t ts) h in
      let b = and-eq_true on_edge moves a.0 in
      let (r', w, e) = walk-route (landing r t) ts a.1 in
      let i = contains→Target m t (targets m r.status) b.0 in
      (r', rw (advance-edge r t i (ground (arith, b.1))) w, e)

-- From every row of every machine, whatever it remembers, the states of `escape`, at most three, are
-- accepted one after the other and end in a state that `is_terminal` accepts.
pub walk-escape :
    (m : Machine) (r : Row m)
    → (r' : Row m) × (walk r (escape m r.status) ≡ ok r')
      × (is_terminal (name m) (value m r'.status) ≡ ok true)
      × (length (escape m r.status) ≤ 3)
walk-escape m r =
    let g = and-eq_true (is_route m r.status (escape m r.status)) _ (escape-is_good m r.status) in
    let (r', w, e) = walk-route r (escape m r.status) g.0 in (r', w, e, leb→le _ _ g.1)
