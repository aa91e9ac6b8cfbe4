-- ===== src/StateMachine/Gates/Records.antt =====
-- The phases of the machines of runs, issues, plans, workspaces and approvals of
-- sidecar/ibreeze/state_machine.py.
use i_breeze.Prelude.{◌≡◌, refl, ap, true, List, Memᴰ, inl, inr, arith}
use i_breeze.Result.{ok}
use i_breeze.StateMachine.Machines.{
  targets, agent_run, review_issue, company_plan_version, task_workspace, human_approval,
}
use i_breeze.StateMachine.Walk.{Row, walk}
use i_breeze.StateMachine.Gates.Division.{
  Phase, early, gate, late, not_late, all, Division, walk-IsEarly,
}
use i_breeze.StateMachine.Gates.Start.{new_row}
use i_breeze.StateMachine.AgentRun.{AgentRunState, agent_run_transitions}
use i_breeze.StateMachine.ReviewIssue.{ReviewIssueState, review_issue_transitions}
use i_breeze.StateMachine.CompanyPlanVersion.{
  CompanyPlanVersionState, company_plan_version_transitions,
}
use i_breeze.StateMachine.TaskWorkspace.{TaskWorkspaceState, task_workspace_transitions}
use i_breeze.StateMachine.HumanApproval.{HumanApprovalState, human_approval_transitions}

run_verified_phase : AgentRunState → Phase
run_verified_phase AgentRunState.verifying = gate
run_verified_phase AgentRunState.succeeded = late
run_verified_phase _ = early

run_verified_at_gate :
    (t : AgentRunState) → run_verified_phase t ≡ gate → t ≡ AgentRunState.verifying
unfolding run_verified_phase
run_verified_at_gate AgentRunState.verifying h = refl
run_verified_at_gate _ h = ground arith

run_verified_edges :
    (s : AgentRunState)
    → run_verified_phase s ≡ early
    → all (λ t. not_late (run_verified_phase t)) (targets agent_run s) ≡ true
unfolding run_verified_phase agent_run_transitions
run_verified_edges AgentRunState.queued h = refl
run_verified_edges _ h = ground arith

run_verified_division : Division agent_run AgentRunState.verifying
run_verified_division = record {
  phase = run_verified_phase;
  at_gate = run_verified_at_gate;
  edges = run_verified_edges;
}

fix_verified_phase : ReviewIssueState → Phase
fix_verified_phase ReviewIssueState.verified = gate
fix_verified_phase ReviewIssueState.closed = late
fix_verified_phase _ = early

fix_verified_at_gate :
    (t : ReviewIssueState) → fix_verified_phase t ≡ gate → t ≡ ReviewIssueState.verified
unfolding fix_verified_phase
fix_verified_at_gate ReviewIssueState.verified h = refl
fix_verified_at_gate _ h = ground arith

fix_verified_edges :
    (s : ReviewIssueState)
    → fix_verified_phase s ≡ early
    → all (λ t. not_late (fix_verified_phase t)) (targets review_issue s) ≡ true
unfolding fix_verified_phase review_issue_transitions
fix_verified_edges ReviewIssueState.opened h = refl
fix_verified_edges _ h = ground arith

fix_verified_division : Division review_issue ReviewIssueState.verified
fix_verified_division = record {
  phase = fix_verified_phase;
  at_gate = fix_verified_at_gate;
  edges = fix_verified_edges;
}

plan_shown_phase : CompanyPlanVersionState → Phase
plan_shown_phase CompanyPlanVersionState.awaiting_user_confirmation = gate
plan_shown_phase CompanyPlanVersionState.approved = late
plan_shown_phase CompanyPlanVersionState.superseded = late
plan_shown_phase _ = early

plan_shown_at_gate :
    (t : CompanyPlanVersionState)
    → plan_shown_phase t ≡ gate
    → t ≡ CompanyPlanVersionState.awaiting_user_confirmation
unfolding plan_shown_phase
plan_shown_at_gate CompanyPlanVersionState.awaiting_user_confirmation h = refl
plan_shown_at_gate _ h = ground arith

plan_shown_edges :
    (s : CompanyPlanVersionState)
    → plan_shown_phase s ≡ early
    → all (λ t. not_late (plan_shown_phase t)) (targets company_plan_version s) ≡ true
unfolding plan_shown_phase company_plan_version_transitions
plan_shown_edges CompanyPlanVersionState.draft h = refl
plan_shown_edges _ h = ground arith

plan_shown_division :
    Division company_plan_version CompanyPlanVersionState.awaiting_user_confirmation
plan_shown_division = record {
  phase = plan_shown_phase;
  at_gate = plan_shown_at_gate;
  edges = plan_shown_edges;
}

staged_phase : TaskWorkspaceState → Phase
staged_phase TaskWorkspaceState.ready_to_apply = gate
staged_phase TaskWorkspaceState.applied = late
staged_phase _ = early

staged_at_gate :
    (t : TaskWorkspaceState) → staged_phase t ≡ gate → t ≡ TaskWorkspaceState.ready_to_apply
unfolding staged_phase
staged_at_gate TaskWorkspaceState.ready_to_apply h = refl
staged_at_gate _ h = ground arith

staged_edges :
    (s : TaskWorkspaceState)
    → staged_phase s ≡ early
    → all (λ t. not_late (staged_phase t)) (targets task_workspace s) ≡ true
unfolding staged_phase task_workspace_transitions
staged_edges TaskWorkspaceState.preparing h = refl
staged_edges _ h = ground arith

staged_division : Division task_workspace TaskWorkspaceState.ready_to_apply
staged_division = record { phase = staged_phase; at_gate = staged_at_gate; edges = staged_edges }

allowed_first_phase : HumanApprovalState → Phase
allowed_first_phase HumanApprovalState.allowed = gate
allowed_first_phase HumanApprovalState.consumed = late
allowed_first_phase _ = early

allowed_first_at_gate :
    (t : HumanApprovalState) → allowed_first_phase t ≡ gate → t ≡ HumanApprovalState.allowed
unfolding allowed_first_phase
allowed_first_at_gate HumanApprovalState.allowed h = refl
allowed_first_at_gate _ h = ground arith

allowed_first_edges :
    (s : HumanApprovalState)
    → allowed_first_phase s ≡ early
    → all (λ t. not_late (allowed_first_phase t)) (targets human_approval s) ≡ true
unfolding allowed_first_phase human_approval_transitions
allowed_first_edges HumanApprovalState.pending h = refl
allowed_first_edges _ h = ground arith

allowed_first_division : Division human_approval HumanApprovalState.allowed
allowed_first_division = record {
  phase = allowed_first_phase;
  at_gate = allowed_first_at_gate;
  edges = allowed_first_edges;
}

pub run_verified_behind :
    (ts : List AgentRunState) (r : Row agent_run)
    → walk (new_row agent_run) ts ≡ ok r
    → r.status ≡ AgentRunState.succeeded
    → Memᴰ AgentRunState.verifying ts
unfolding run_verified_division run_verified_phase
run_verified_behind ts r h e =
    elim (walk-IsEarly run_verified_division (new_row agent_run) ts r (refl, λ u p. cc) h) [
      | inl i ↦ i
      | inr k ↦ cc (k.0, ap run_verified_phase e)
    ]

pub fix_verified_behind :
    (ts : List ReviewIssueState) (r : Row review_issue)
    → walk (new_row review_issue) ts ≡ ok r
    → r.status ≡ ReviewIssueState.closed
    → Memᴰ ReviewIssueState.verified ts
unfolding fix_verified_division fix_verified_phase
fix_verified_behind ts r h e =
    elim (walk-IsEarly fix_verified_division (new_row review_issue) ts r (refl, λ u p. cc) h) [
      | inl i ↦ i
      | inr k ↦ cc (k.0, ap fix_verified_phase e)
    ]

pub plan_shown_behind :
    (ts : List CompanyPlanVersionState) (r : Row company_plan_version)
    → walk (new_row company_plan_version) ts ≡ ok r
    → r.status ≡ CompanyPlanVersionState.approved
    → Memᴰ CompanyPlanVersionState.awaiting_user_confirmation ts
unfolding plan_shown_division plan_shown_phase
plan_shown_behind ts r h e =
    elim (walk-IsEarly plan_shown_division (new_row company_plan_version) ts r (refl, λ u p. cc)
      h) [ inl i ↦ i | inr k ↦ cc (k.0, ap plan_shown_phase e) ]

pub staged_behind :
    (ts : List TaskWorkspaceState) (r : Row task_workspace)
    → walk (new_row task_workspace) ts ≡ ok r
    → r.status ≡ TaskWorkspaceState.applied
    → Memᴰ TaskWorkspaceState.ready_to_apply ts
unfolding staged_division staged_phase
staged_behind ts r h e =
    elim (walk-IsEarly staged_division (new_row task_workspace) ts r (refl, λ u p. cc) h) [
      | inl i ↦ i
      | inr k ↦ cc (k.0, ap staged_phase e)
    ]

pub allowed_first_behind :
    (ts : List HumanApprovalState) (r : Row human_approval)
    → walk (new_row human_approval) ts ≡ ok r
    → r.status ≡ HumanApprovalState.consumed
    → Memᴰ HumanApprovalState.allowed ts
unfolding allowed_first_division allowed_first_phase
allowed_first_behind ts r h e =
    elim (walk-IsEarly allowed_first_division (new_row human_approval) ts r (refl, λ u p. cc) h) [
      | inl i ↦ i
      | inr k ↦ cc (k.0, ap allowed_first_phase e)
    ]
