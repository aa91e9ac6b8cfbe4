-- ===== src/Plan/Tests.antt =====
-- Runs of sidecar/ibreeze/orchestration/plan_validator.py, and instances of its theorems.
use i_breeze.Prelude.{String, ◌≡◌, ◌↔◌, refl, Bool, true, false, List, [], ◌∷◌, some, lookup, put}
use i_breeze.Plan.Model.{Deliverable, DepartmentPlanTask, CompanyPlan, PlanValidationIssue, Rules}
use i_breeze.Plan.Text.{item_path, is_blank, sorted_issues}
use i_breeze.Plan.Graph.{Graph, graph_has_cycle}
use i_breeze.Plan.Cycle.Relation.{Leads}
use i_breeze.Plan.Cycle.Decides.{graph_has_cycle-Decides}
use i_breeze.Plan.Validate.{
  validate_plan, has_cycle, graph_from, raised, incomplete, to_set, task_issues, deliverable_issues,
  write_issues,
}
use i_breeze.Plan.Accepts.Conditions.{PlanAccepted}
use i_breeze.Plan.Accepts.Whole.{validate_plan_iff}

abbrev ring : Graph
ring = ("a", "b" ∷ []) ∷ ("b", "c" ∷ "d" ∷ []) ∷ ("c", "a" ∷ []) ∷ []

ring_runs : graph_has_cycle ring ≡ some true
unfolding graph_has_cycle lookup
ring_runs = refl

diamond_runs :
    graph_has_cycle (("a", "b" ∷ "c" ∷ []) ∷ ("b", "d" ∷ []) ∷ ("c", "d" ∷ []) ∷ ("d", []) ∷ [])
    ≡ some false
unfolding graph_has_cycle lookup
diamond_runs = refl

path_runs : item_path "t1" "deliverables" 120 ≡ "department_tasks.t1.deliverables.120"
unfolding item_path
path_runs = refl

graph_has_cycle-Decides_example :
    (b : Bool) × (graph_has_cycle ring ≡ some b) × ((b ≡ true) ↔ ((x : String) × Leads ring x x))
graph_has_cycle-Decides_example = graph_has_cycle-Decides ring

abbrev rules : Rules
rules = record {
  active_department_ids = "d1" ∷ "d2" ∷ [];
  candidate_department_ids = "d1" ∷ [];
  active_leader_department_ids = "d1" ∷ "d2" ∷ [];
  allowed_employee_ids = "e1" ∷ "e2" ∷ [];
  emergency_disabled_capability_tags = [];
  product_permission_limits = "delete" ∷ [];
}

abbrev deliverable : Deliverable
deliverable = record {
  artifact_type = "report";
  review_strategy = "independent_drafts";
  review_rounds = 1;
  contributor_employee_ids = "e1" ∷ [];
  reviewer_employee_ids = "e2" ∷ [];
}

abbrev task : String → List String → DepartmentPlanTask
task ref deps = record {
  local_ref = ref;
  department_id = "d1";
  matched_responsibility_keys = [];
  general_manager_office_temporary_assignment = false;
  objective = "write it";
  dependency_refs = deps;
  deliverables = deliverable ∷ [];
  acceptance_criteria = "done" ∷ [];
  required_capability_tags = [];
  required_external_writes =
      record { target = "/tmp/x"; action = "create"; expected_effect = "a file" } ∷ [];
}

abbrev plan_of : List DepartmentPlanTask → CompanyPlan
plan_of tasks = record {
  id = "p";
  company_task_id = "t";
  company_id = "c";
  version = 1;
  company_introduction_version = 1;
  summary = "";
  goals = "goal" ∷ [];
  non_goals = [];
  department_tasks = tasks;
  final_acceptance_criteria = "all done" ∷ [];
  status = "awaiting_user_confirmation";
  content_hash = "";
}

abbrev good_plan : CompanyPlan
good_plan = plan_of (task "t1" [] ∷ task "t2" ("t1" ∷ []) ∷ [])

good_plan_runs : validate_plan rules good_plan ≡ some []
unfolding validate_plan has_cycle graph_from graph_has_cycle lookup put raised incomplete is_blank
    to_set task_issues deliverable_issues write_issues sorted_issues
good_plan_runs = refl

cyclic_plan_runs :
    validate_plan rules (plan_of (task "t1" ("t2" ∷ []) ∷ task "t2" ("t1" ∷ []) ∷ []))
    ≡ some (
        record {
          rule_id = "PV-003";
          path = "department_tasks.dependency_refs";
          message = "Department task dependencies contain a cycle.";
        }
        ∷ [])
unfolding validate_plan has_cycle graph_from graph_has_cycle lookup put raised incomplete is_blank
    to_set task_issues deliverable_issues write_issues sorted_issues
cyclic_plan_runs = refl

validate_plan_iff_example :
    (issues : List PlanValidationIssue) × (validate_plan rules good_plan ≡ some issues)
    × ((issues ≡ []) ↔ PlanAccepted rules good_plan)
validate_plan_iff_example = validate_plan_iff rules good_plan
