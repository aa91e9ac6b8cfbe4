-- ===== src/StateMachine/Gates.antt =====
-- States that cannot be skipped in the machines of sidecar/ibreeze/state_machine.py: a task completes only
-- after the user's approval and the final review, a run succeeds only after verification, and so on.
mod Division
pub mod Histories
pub mod Start
mod Tasks
mod Records
use i_breeze.Prelude.{
  ◌≡◌, refl, sym, ap, Bool, true, false, ◌&&◌, List, [], ◌∷◌, map, Memᴰ, Option, none, some, inl,
  inr, ◌⊎◌, arith, Bool-cases, subst, if◌then◌else◌,
}
use i_breeze.Result.{ok}
use i_breeze.StateMachine.Machines.{
  Machine, State, value, targets, company_task, department_task, employee_task, agent_run,
  review_assignment, review_issue, company_plan_version, task_workspace, human_approval,
}
use i_breeze.StateMachine.CompanyTask.{CompanyTaskState}
use i_breeze.StateMachine.DepartmentTask.{DepartmentTaskState}
use i_breeze.StateMachine.EmployeeTask.{EmployeeTaskState}
use i_breeze.StateMachine.AgentRun.{AgentRunState}
use i_breeze.StateMachine.ReviewAssignment.{ReviewAssignmentState}
use i_breeze.StateMachine.ReviewIssue.{ReviewIssueState}
use i_breeze.StateMachine.CompanyPlanVersion.{CompanyPlanVersionState}
use i_breeze.StateMachine.TaskWorkspace.{TaskWorkspaceState}
use i_breeze.StateMachine.HumanApproval.{HumanApprovalState}
use i_breeze.StateMachine.Walk.{Row, walk}
use Start.{initial, new_row}
use Histories.{Move, moves, IsHonest, moves-walk}
use Tasks.{
  confirmed_behind, finally_reviewed_behind, department_reviewed_behind, peer_reviewed_behind,
}
use Records.{
  run_verified_behind, fix_verified_behind, plan_shown_behind, staged_behind, allowed_first_behind,
}

-- `Gate m f g`: in the machine `m` the state `f` lies behind the state `g`.
pub data Gate : (m : Machine) → State m → State m → Type 0 where
  confirmed : Gate company_task CompanyTaskState.completed CompanyTaskState.approved
  finally_reviewed : Gate company_task CompanyTaskState.completed CompanyTaskState.final_review
  department_reviewed :
      Gate department_task DepartmentTaskState.completed DepartmentTaskState.reviewing
  peer_reviewed : Gate employee_task EmployeeTaskState.accepted EmployeeTaskState.peer_reviewing
  run_verified : Gate agent_run AgentRunState.succeeded AgentRunState.verifying
  fix_verified : Gate review_issue ReviewIssueState.closed ReviewIssueState.verified
  plan_shown :
      Gate company_plan_version CompanyPlanVersionState.approved
        CompanyPlanVersionState.awaiting_user_confirmation
  staged : Gate task_workspace TaskWorkspaceState.applied TaskWorkspaceState.ready_to_apply
  allowed_first : Gate human_approval HumanApprovalState.consumed HumanApprovalState.allowed

walk-Gate :
    {m : Machine} {f g : State m}
    → Gate m f g
    → (ts : List (State m)) (r : Row m) → walk (new_row m) ts ≡ ok r
    → r.status ≡ f
    → Memᴰ g ts
walk-Gate confirmed ts r h e = confirmed_behind ts r h e
walk-Gate finally_reviewed ts r h e = finally_reviewed_behind ts r h e
walk-Gate department_reviewed ts r h e = department_reviewed_behind ts r h e
walk-Gate peer_reviewed ts r h e = peer_reviewed_behind ts r h e
walk-Gate run_verified ts r h e = run_verified_behind ts r h e
walk-Gate fix_verified ts r h e = fix_verified_behind ts r h e
walk-Gate plan_shown ts r h e = plan_shown_behind ts r h e
walk-Gate staged ts r h e = staged_behind ts r h e
walk-Gate allowed_first ts r h e = allowed_first_behind ts r h e

-- From the initial state of a machine, any calls of `transition` that are all accepted and end in a final
-- state, where every call that enters or leaves a waiting state passes the state in which the wait began,
-- have gone to each state that this final state lies behind: a completed company task was approved by the
-- user and finally reviewed, a completed department task reviewed, an accepted employee task peer reviewed,
-- a succeeded run verified, a closed issue verified, an approved plan shown to the user, an applied
-- workspace staged, and a consumed approval allowed.
pub moves-Gate :
    {m : Machine} {f g : State m}
    → Gate m f g
    → (vs : List (Move m)) → moves (initial m) vs ≡ ok f
    → IsHonest (new_row m) vs
    → Memᴰ g (map Move.target vs)
moves-Gate {m = m} p vs e h =
    let (r, w, z) = moves-walk (new_row m) vs _ e h in walk-Gate p (map Move.target vs) r w z
