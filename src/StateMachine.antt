-- ===== src/StateMachine.antt =====
-- sidecar/ibreeze/state_machine.py: the transition tables, one file each, the functions over them,
-- and what they guarantee.
pub mod Entity
pub mod CompanyTask
pub mod DepartmentTask
pub mod EmployeeTask
pub mod AgentRun
pub mod ReviewAssignment
pub mod ReviewIssue
pub mod CompanyPlanVersion
pub mod TaskWorkspace
pub mod HumanApproval
pub mod Registry
pub mod Machines
pub mod Outcomes
pub mod Terminal
pub mod Walk
pub mod Gates
pub mod Finish
mod Tests
