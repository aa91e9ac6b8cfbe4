-- ===== src/Plan/Model.antt =====
-- sidecar/ibreeze/orchestration/plan_validator.py: the closed schema of a company plan. The fields that
-- pydantic constrains by `Literal` are texts, their integers natural numbers.
use i_breeze.Prelude.{ℕ, String, Bool, List}

pub record ExternalWrite : Type 0 where
  pub target : String
  pub action : String
  pub expected_effect : String

pub record Deliverable : Type 0 where
  pub artifact_type : String
  pub review_strategy : String
  pub review_rounds : ℕ
  pub contributor_employee_ids : List String
  pub reviewer_employee_ids : List String

pub record DepartmentPlanTask : Type 0 where
  pub local_ref : String
  pub department_id : String
  pub matched_responsibility_keys : List String
  pub general_manager_office_temporary_assignment : Bool
  pub objective : String
  pub dependency_refs : List String
  pub deliverables : List Deliverable
  pub acceptance_criteria : List String
  pub required_capability_tags : List String
  pub required_external_writes : List ExternalWrite

pub record CompanyPlan : Type 0 where
  pub id : String
  pub company_task_id : String
  pub company_id : String
  pub version : ℕ
  pub company_introduction_version : ℕ
  pub summary : String
  pub goals : List String
  pub non_goals : List String
  pub department_tasks : List DepartmentPlanTask
  pub final_acceptance_criteria : List String
  pub status : String
  pub content_hash : String

pub record PlanValidationIssue : Type 0 where
  pub rule_id : String
  pub path : String
  pub message : String

-- The keyword arguments of `validate_plan`.
pub record Rules : Type 0 where
  pub active_department_ids : List String
  pub candidate_department_ids : List String
  pub active_leader_department_ids : List String
  pub allowed_employee_ids : List String
  pub emergency_disabled_capability_tags : List String
  pub product_permission_limits : List String
