-- ===== src/StateMachine/Gates/Tasks.antt =====
-- The phases of the task machines of sidecar/ibreeze/state_machine.py.
use i_breeze.Prelude.{◌≡◌, refl, ap, true, List, Memᴰ, inl, inr, arith}
use i_breeze.Result.{ok}
use i_breeze.StateMachine.Machines.{targets, company_task, department_task, employee_task}
use i_breeze.StateMachine.Walk.{Row, walk}
use i_breeze.StateMachine.Gates.Division.{
  Phase, early, gate, late, not_late, all, Division, walk-IsEarly,
}
use i_breeze.StateMachine.Gates.Start.{new_row}
use i_breeze.StateMachine.CompanyTask.{CompanyTaskState, company_task_transitions}
use i_breeze.StateMachine.DepartmentTask.{DepartmentTaskState, department_task_transitions}
use i_breeze.StateMachine.EmployeeTask.{EmployeeTaskState, employee_task_transitions}

confirmed_phase : CompanyTaskState → Phase
confirmed_phase CompanyTaskState.draft = early
confirmed_phase CompanyTaskState.analyzing = early
confirmed_phase CompanyTaskState.awaiting_user_confirmation = early
confirmed_phase CompanyTaskState.revision_requested = early
confirmed_phase CompanyTaskState.approved = gate
confirmed_phase CompanyTaskState.rejected = early
confirmed_phase CompanyTaskState.waiting_resource = early
confirmed_phase CompanyTaskState.cancelling = early
confirmed_phase CompanyTaskState.cancelled = early
confirmed_phase CompanyTaskState.failed = early
confirmed_phase _ = late

confirmed_at_gate :
    (t : CompanyTaskState) → confirmed_phase t ≡ gate → t ≡ CompanyTaskState.approved
unfolding confirmed_phase
confirmed_at_gate CompanyTaskState.approved h = refl
confirmed_at_gate _ h = ground arith

confirmed_edges :
    (s : CompanyTaskState)
    → confirmed_phase s ≡ early
    → all (λ t. not_late (confirmed_phase t)) (targets company_task s) ≡ true
unfolding confirmed_phase company_task_transitions
confirmed_edges CompanyTaskState.draft h = refl
confirmed_edges _ h = ground arith

confirmed_division : Division company_task CompanyTaskState.approved
confirmed_division = record {
  phase = confirmed_phase;
  at_gate = confirmed_at_gate;
  edges = confirmed_edges;
}

finally_reviewed_phase : CompanyTaskState → Phase
finally_reviewed_phase CompanyTaskState.final_review = gate
finally_reviewed_phase CompanyTaskState.completed = late
finally_reviewed_phase _ = early

finally_reviewed_at_gate :
    (t : CompanyTaskState) → finally_reviewed_phase t ≡ gate → t ≡ CompanyTaskState.final_review
unfolding finally_reviewed_phase
finally_reviewed_at_gate CompanyTaskState.final_review h = refl
finally_reviewed_at_gate _ h = ground arith

finally_reviewed_edges :
    (s : CompanyTaskState)
    → finally_reviewed_phase s ≡ early
    → all (λ t. not_late (finally_reviewed_phase t)) (targets company_task s) ≡ true
unfolding finally_reviewed_phase company_task_transitions
finally_reviewed_edges CompanyTaskState.draft h = refl
finally_reviewed_edges _ h = ground arith

finally_reviewed_division : Division company_task CompanyTaskState.final_review
finally_reviewed_division = record {
  phase = finally_reviewed_phase;
  at_gate = finally_reviewed_at_gate;
  edges = finally_reviewed_edges;
}

department_reviewed_phase : DepartmentTaskState → Phase
department_reviewed_phase DepartmentTaskState.reviewing = gate
department_reviewed_phase DepartmentTaskState.completed = late
department_reviewed_phase _ = early

department_reviewed_at_gate :
    (t : DepartmentTaskState)
    → department_reviewed_phase t ≡ gate
    → t ≡ DepartmentTaskState.reviewing
unfolding department_reviewed_phase
department_reviewed_at_gate DepartmentTaskState.reviewing h = refl
department_reviewed_at_gate _ h = ground arith

department_reviewed_edges :
    (s : DepartmentTaskState)
    → department_reviewed_phase s ≡ early
    → all (λ t. not_late (department_reviewed_phase t)) (targets department_task s) ≡ true
unfolding department_reviewed_phase department_task_transitions
department_reviewed_edges DepartmentTaskState.draft h = refl
department_reviewed_edges _ h = ground arith

department_reviewed_division : Division department_task DepartmentTaskState.reviewing
department_reviewed_division = record {
  phase = department_reviewed_phase;
  at_gate = department_reviewed_at_gate;
  edges = department_reviewed_edges;
}

peer_reviewed_phase : EmployeeTaskState → Phase
peer_reviewed_phase EmployeeTaskState.peer_reviewing = gate
peer_reviewed_phase EmployeeTaskState.changes_requested = late
peer_reviewed_phase EmployeeTaskState.accepted = late
peer_reviewed_phase _ = early

peer_reviewed_at_gate :
    (t : EmployeeTaskState) → peer_reviewed_phase t ≡ gate → t ≡ EmployeeTaskState.peer_reviewing
unfolding peer_reviewed_phase
peer_reviewed_at_gate EmployeeTaskState.peer_reviewing h = refl
peer_reviewed_at_gate _ h = ground arith

peer_reviewed_edges :
    (s : EmployeeTaskState)
    → peer_reviewed_phase s ≡ early
    → all (λ t. not_late (peer_reviewed_phase t)) (targets employee_task s) ≡ true
unfolding peer_reviewed_phase employee_task_transitions
peer_reviewed_edges EmployeeTaskState.assigned h = refl
peer_reviewed_edges _ h = ground arith

peer_reviewed_division : Division employee_task EmployeeTaskState.peer_reviewing
peer_reviewed_division = record {
  phase = peer_reviewed_phase;
  at_gate = peer_reviewed_at_gate;
  edges = peer_reviewed_edges;
}

pub confirmed_behind :
    (ts : List CompanyTaskState) (r : Row company_task)
    → walk (new_row company_task) ts ≡ ok r
    → r.status ≡ CompanyTaskState.completed
    → Memᴰ CompanyTaskState.approved ts
unfolding confirmed_division confirmed_phase
confirmed_behind ts r h e =
    elim (walk-IsEarly confirmed_division (new_row company_task) ts r (refl, λ u p. cc) h) [
      | inl i ↦ i
      | inr k ↦ cc (k.0, ap confirmed_phase e)
    ]

pub finally_reviewed_behind :
    (ts : List CompanyTaskState) (r : Row company_task)
    → walk (new_row company_task) ts ≡ ok r
    → r.status ≡ CompanyTaskState.completed
    → Memᴰ CompanyTaskState.final_review ts
unfolding finally_reviewed_division finally_reviewed_phase
finally_reviewed_behind ts r h e =
    elim (walk-IsEarly finally_reviewed_division (new_row company_task) ts r (refl, λ u p. cc) h) [
      | inl i ↦ i
      | inr k ↦ cc (k.0, ap finally_reviewed_phase e)
    ]

pub department_reviewed_behind :
    (ts : List DepartmentTaskState) (r : Row department_task)
    → walk (new_row department_task) ts ≡ ok r
    → r.status ≡ DepartmentTaskState.completed
    → Memᴰ DepartmentTaskState.reviewing ts
unfolding department_reviewed_division department_reviewed_phase
department_reviewed_behind ts r h e =
    elim (walk-IsEarly department_reviewed_division (new_row department_task) ts r (refl, λ u p. cc)
      h) [ inl i ↦ i | inr k ↦ cc (k.0, ap department_reviewed_phase e) ]

pub peer_reviewed_behind :
    (ts : List EmployeeTaskState) (r : Row employee_task)
    → walk (new_row employee_task) ts ≡ ok r
    → r.status ≡ EmployeeTaskState.accepted
    → Memᴰ EmployeeTaskState.peer_reviewing ts
unfolding peer_reviewed_division peer_reviewed_phase
peer_reviewed_behind ts r h e =
    elim (walk-IsEarly peer_reviewed_division (new_row employee_task) ts r (refl, λ u p. cc) h) [
      | inl i ↦ i
      | inr k ↦ cc (k.0, ap peer_reviewed_phase e)
    ]
