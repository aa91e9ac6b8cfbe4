-- ===== src/StateMachine/Finish/Escape.antt =====
-- Ways out of the states of the machines of sidecar/ibreeze/state_machine.py.
use i_breeze.Prelude.{leb, length, ◌≡◌, refl, Bool, true, ◌&&◌, not, List, [], ◌∷◌, map, contains}
use i_breeze.StateMachine.Registry.{is_empty, is_waiting}
use i_breeze.StateMachine.Machines.{
  Machine, company_task, department_task, employee_task, agent_run, review_assignment, review_issue,
  company_plan_version, task_workspace, human_approval, State, value, targets,
}
use i_breeze.StateMachine.CompanyTask.{
  CompanyTaskState, company_task_value, company_task_transitions,
}
use i_breeze.StateMachine.DepartmentTask.{
  DepartmentTaskState, department_task_value, department_task_transitions,
}
use i_breeze.StateMachine.EmployeeTask.{
  EmployeeTaskState, employee_task_value, employee_task_transitions,
}
use i_breeze.StateMachine.AgentRun.{AgentRunState, agent_run_value, agent_run_transitions}
use i_breeze.StateMachine.ReviewAssignment.{
  ReviewAssignmentState, review_assignment_value, review_assignment_transitions,
}
use i_breeze.StateMachine.ReviewIssue.{
  ReviewIssueState, review_issue_value, review_issue_transitions,
}
use i_breeze.StateMachine.CompanyPlanVersion.{
  CompanyPlanVersionState, company_plan_version_value, company_plan_version_transitions,
}
use i_breeze.StateMachine.TaskWorkspace.{
  TaskWorkspaceState, task_workspace_value, task_workspace_transitions,
}
use i_breeze.StateMachine.HumanApproval.{
  HumanApprovalState, human_approval_value, human_approval_transitions,
}

abbrev company_task_escape : CompanyTaskState → List CompanyTaskState
company_task_escape CompanyTaskState.draft =
    CompanyTaskState.cancelling ∷ CompanyTaskState.cancelled ∷ []
company_task_escape CompanyTaskState.awaiting_user_confirmation = CompanyTaskState.rejected ∷ []
company_task_escape CompanyTaskState.revision_requested = CompanyTaskState.rejected ∷ []
company_task_escape CompanyTaskState.approved =
    CompanyTaskState.cancelling ∷ CompanyTaskState.cancelled ∷ []
company_task_escape CompanyTaskState.rejected = []
company_task_escape CompanyTaskState.completed = []
company_task_escape CompanyTaskState.cancelling = CompanyTaskState.cancelled ∷ []
company_task_escape CompanyTaskState.cancelled = []
company_task_escape CompanyTaskState.failed = []
company_task_escape _ = CompanyTaskState.failed ∷ []

abbrev department_task_escape : DepartmentTaskState → List DepartmentTaskState
department_task_escape DepartmentTaskState.completed = []
department_task_escape DepartmentTaskState.cancelled = []
department_task_escape DepartmentTaskState.failed = []
department_task_escape _ = DepartmentTaskState.cancelled ∷ []

abbrev employee_task_escape : EmployeeTaskState → List EmployeeTaskState
employee_task_escape EmployeeTaskState.submitted = EmployeeTaskState.failed ∷ []
employee_task_escape EmployeeTaskState.peer_reviewing = EmployeeTaskState.failed ∷ []
employee_task_escape EmployeeTaskState.accepted = []
employee_task_escape EmployeeTaskState.cancelled = []
employee_task_escape EmployeeTaskState.failed = []
employee_task_escape _ = EmployeeTaskState.cancelled ∷ []

abbrev agent_run_escape : AgentRunState → List AgentRunState
agent_run_escape AgentRunState.succeeded = []
agent_run_escape AgentRunState.cancelled = []
agent_run_escape AgentRunState.timed_out = []
agent_run_escape AgentRunState.failed = []
agent_run_escape _ = AgentRunState.cancelled ∷ []

abbrev review_assignment_escape : ReviewAssignmentState → List ReviewAssignmentState
review_assignment_escape ReviewAssignmentState.submitted = ReviewAssignmentState.stale ∷ []
review_assignment_escape ReviewAssignmentState.stale = []
review_assignment_escape ReviewAssignmentState.cancelled = []
review_assignment_escape _ = ReviewAssignmentState.cancelled ∷ []

abbrev review_issue_escape : ReviewIssueState → List ReviewIssueState
review_issue_escape ReviewIssueState.opened = ReviewIssueState.rejected ∷ []
review_issue_escape ReviewIssueState.fixing =
    ReviewIssueState.resolved ∷ ReviewIssueState.verified ∷ ReviewIssueState.closed ∷ []
review_issue_escape ReviewIssueState.resolved =
    ReviewIssueState.verified ∷ ReviewIssueState.closed ∷ []
review_issue_escape ReviewIssueState.verified = ReviewIssueState.closed ∷ []
review_issue_escape _ = []

abbrev company_plan_version_escape : CompanyPlanVersionState → List CompanyPlanVersionState
company_plan_version_escape CompanyPlanVersionState.draft = CompanyPlanVersionState.rejected ∷ []
company_plan_version_escape CompanyPlanVersionState.awaiting_user_confirmation =
    CompanyPlanVersionState.rejected ∷ []
company_plan_version_escape _ = []

abbrev task_workspace_escape : TaskWorkspaceState → List TaskWorkspaceState
task_workspace_escape TaskWorkspaceState.applied = []
task_workspace_escape TaskWorkspaceState.abandoned = []
task_workspace_escape _ = TaskWorkspaceState.abandoned ∷ []

abbrev human_approval_escape : HumanApprovalState → List HumanApprovalState
human_approval_escape HumanApprovalState.pending = HumanApprovalState.expired ∷ []
human_approval_escape HumanApprovalState.allowed = HumanApprovalState.expired ∷ []
human_approval_escape _ = []

-- A way to a terminal state that enters no waiting state.
abbrev pub escape : (m : Machine) → State m → List (State m)
escape company_task = company_task_escape
escape department_task = department_task_escape
escape employee_task = employee_task_escape
escape agent_run = agent_run_escape
escape review_assignment = review_assignment_escape
escape review_issue = review_issue_escape
escape company_plan_version = company_plan_version_escape
escape task_workspace = task_workspace_escape
escape human_approval = human_approval_escape

abbrev pub is_route : (m : Machine) → State m → List (State m) → Bool
is_route m s [] = is_empty (targets m s)
is_route m s (t ∷ ts) =
    contains (value m t) (map (value m) (targets m s))
    && not (is_waiting (value m t))
    && is_route m t ts

abbrev pub is_good : (m : Machine) → State m → List (State m) → Bool
is_good m s ts = is_route m s ts && leb (length ts) 3

company_task_route : (s : CompanyTaskState) → is_good company_task s (company_task_escape s) ≡ true
unfolding is_waiting company_task_value company_task_transitions
company_task_route CompanyTaskState.draft = refl
company_task_route _ = refl

department_task_route :
    (s : DepartmentTaskState) → is_good department_task s (department_task_escape s) ≡ true
unfolding is_waiting department_task_value department_task_transitions
department_task_route DepartmentTaskState.draft = refl
department_task_route _ = refl

employee_task_route :
    (s : EmployeeTaskState) → is_good employee_task s (employee_task_escape s) ≡ true
unfolding is_waiting employee_task_value employee_task_transitions
employee_task_route EmployeeTaskState.assigned = refl
employee_task_route _ = refl

agent_run_route : (s : AgentRunState) → is_good agent_run s (agent_run_escape s) ≡ true
unfolding is_waiting agent_run_value agent_run_transitions
agent_run_route AgentRunState.queued = refl
agent_run_route _ = refl

review_assignment_route :
    (s : ReviewAssignmentState) → is_good review_assignment s (review_assignment_escape s) ≡ true
unfolding is_waiting review_assignment_value review_assignment_transitions
review_assignment_route ReviewAssignmentState.assigned = refl
review_assignment_route _ = refl

review_issue_route : (s : ReviewIssueState) → is_good review_issue s (review_issue_escape s) ≡ true
unfolding is_waiting review_issue_value review_issue_transitions
review_issue_route ReviewIssueState.opened = refl
review_issue_route _ = refl

company_plan_version_route :
    (s : CompanyPlanVersionState)
    → is_good company_plan_version s (company_plan_version_escape s) ≡ true
unfolding is_waiting company_plan_version_value company_plan_version_transitions
company_plan_version_route CompanyPlanVersionState.draft = refl
company_plan_version_route _ = refl

task_workspace_route :
    (s : TaskWorkspaceState) → is_good task_workspace s (task_workspace_escape s) ≡ true
unfolding is_waiting task_workspace_value task_workspace_transitions
task_workspace_route TaskWorkspaceState.preparing = refl
task_workspace_route _ = refl

human_approval_route :
    (s : HumanApprovalState) → is_good human_approval s (human_approval_escape s) ≡ true
unfolding is_waiting human_approval_value human_approval_transitions
human_approval_route HumanApprovalState.pending = refl
human_approval_route _ = refl

pub escape-is_good : (m : Machine) (s : State m) → is_good m s (escape m s) ≡ true
escape-is_good company_task = company_task_route
escape-is_good department_task = department_task_route
escape-is_good employee_task = employee_task_route
escape-is_good agent_run = agent_run_route
escape-is_good review_assignment = review_assignment_route
escape-is_good review_issue = review_issue_route
escape-is_good company_plan_version = company_plan_version_route
escape-is_good task_workspace = task_workspace_route
escape-is_good human_approval = human_approval_route
