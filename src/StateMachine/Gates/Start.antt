-- ===== src/StateMachine/Gates/Start.antt =====
-- The rows with which the machines of sidecar/ibreeze/state_machine.py start.
use i_breeze.Prelude.{none}
use i_breeze.StateMachine.Machines.{
  Machine, State, company_task, department_task, employee_task, agent_run, review_assignment,
  review_issue, company_plan_version, task_workspace, human_approval,
}
use i_breeze.StateMachine.CompanyTask.{CompanyTaskState}
use i_breeze.StateMachine.DepartmentTask.{DepartmentTaskState}
use i_breeze.StateMachine.EmployeeTask.{EmployeeTaskState}
use i_breeze.StateMachine.AgentRun.{AgentRunState}
use i_breeze.StateMachine.ReviewAssignment.{ReviewAssignmentState}
use i_breeze.StateMachine.ReviewIssue.{ReviewIssueState}
use i_breeze.StateMachine.CompanyPlanVersion.{CompanyPlanVersionState}
use i_breeze.StateMachine.TaskWorkspace.{TaskWorkspaceState}
use i_breeze.StateMachine.HumanApproval.{HumanApprovalState}
use i_breeze.StateMachine.Walk.{Row}

-- the state of a new row
abbrev pub initial : (m : Machine) → State m
initial company_task = CompanyTaskState.draft
initial department_task = DepartmentTaskState.draft
initial employee_task = EmployeeTaskState.assigned
initial agent_run = AgentRunState.queued
initial review_assignment = ReviewAssignmentState.assigned
initial review_issue = ReviewIssueState.opened
initial company_plan_version = CompanyPlanVersionState.draft
initial task_workspace = TaskWorkspaceState.preparing
initial human_approval = HumanApprovalState.pending

abbrev pub new_row : (m : Machine) → Row m
new_row m = record { status = initial m; resume = none }
