-- ===== src/Plan/Accepts/Conditions.antt =====
-- What a company plan has to satisfy, said without the validator of
-- sidecar/ibreeze/orchestration/plan_validator.py.
use text.Mathlib.TextBridge.{IsPrefix}
use i_breeze.Prelude.{String, ◌≡◌, ◌≢◌, ◌⊎◌, true, false, List, [], ◌∷◌, map, Memᴰ}
use i_breeze.Plan.Model.{ExternalWrite, Deliverable, DepartmentPlanTask, CompanyPlan, Rules}
use i_breeze.Plan.Text.{is_blank}
use i_breeze.Plan.Validate.{graph_from}
use i_breeze.Plan.Cycle.Relation.{Leads}

pub record DeliverableAccepted (r : Rules) (d : Deliverable) : Type 0 where
  pub contributors_given : d.contributor_employee_ids ≢ []
  pub reviewers_given : d.reviewer_employee_ids ≢ []
  pub contributors_allowed :
      (e : String) → Memᴰ e d.contributor_employee_ids → Memᴰ e r.allowed_employee_ids
  pub reviewers_allowed :
      (e : String) → Memᴰ e d.reviewer_employee_ids → Memᴰ e r.allowed_employee_ids
  pub independent :
      (e : String) → Memᴰ e d.contributor_employee_ids → ¬ Memᴰ e d.reviewer_employee_ids
  pub strategy_given : d.review_strategy ≢ ""
  pub rounds_given : d.review_rounds ≢ 0

pub record WriteAccepted (r : Rules) (w : ExternalWrite) : Type 0 where
  pub absolute : IsPrefix "/" w.target
  pub effect_given : is_blank w.expected_effect ≡ false
  pub permitted : ¬ Memᴰ w.action r.product_permission_limits

pub record TaskAccepted (r : Rules) (references : List String) (t : DepartmentPlanTask)
    : Type 0 where
  pub objective_given : is_blank t.objective ≡ false
  pub deliverables_given : t.deliverables ≢ []
  pub criteria_given : t.acceptance_criteria ≢ []
  pub active : Memᴰ t.department_id r.active_department_ids
  pub matched :
      Memᴰ t.department_id r.candidate_department_ids
      ⊎ (t.general_manager_office_temporary_assignment ≡ true)
  pub led : Memᴰ t.department_id r.active_leader_department_ids
  pub dependencies_known : (d : String) → Memᴰ d t.dependency_refs → Memᴰ d references
  pub dependencies_other : ¬ Memᴰ t.local_ref t.dependency_refs
  pub tags_enabled :
      (tag : String)
      → Memᴰ tag t.required_capability_tags
      → ¬ Memᴰ tag r.emergency_disabled_capability_tags
  pub deliverables_accepted : (d : Deliverable) → Memᴰ d t.deliverables → DeliverableAccepted r d
  pub writes_accepted : (w : ExternalWrite) → Memᴰ w t.required_external_writes → WriteAccepted r w

-- No text occurs twice.
abbrev pub Distinct : List String → Type 0
Distinct [] = Unit {0}
Distinct (x ∷ xs) = (¬ Memᴰ x xs) × Distinct xs

abbrev pub refs_of : CompanyPlan → List String
refs_of plan = map (λ (t : DepartmentPlanTask). t.local_ref) plan.department_tasks

pub record PlanAccepted (r : Rules) (plan : CompanyPlan) : Type 0 where
  pub goals_given : plan.goals ≢ []
  pub tasks_given : plan.department_tasks ≢ []
  pub final_criteria_given : plan.final_acceptance_criteria ≢ []
  pub references_distinct : Distinct (refs_of plan)
  pub tasks_accepted :
      (t : DepartmentPlanTask) → Memᴰ t plan.department_tasks → TaskAccepted r (refs_of plan) t
  pub acyclic : (x : String) → ¬ Leads (graph_from [] plan.department_tasks) x x
