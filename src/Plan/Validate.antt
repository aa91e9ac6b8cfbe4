-- ===== src/Plan/Validate.antt =====
-- sidecar/ibreeze/orchestration/plan_validator.py: `validate_plan` and `_has_cycle`.
use i_breeze.Prelude.{
  ℕ, ◌+◌, String, Bool, true, false, ◌&&◌, ◌||◌, not, List, [], ◌∷◌, ◌++◌, map, Option, none, some,
  str_eq, starts_with, contains, any, length, put, ◌==◌, if◌then◌else◌,
}
use i_breeze.Plan.Model.{
  ExternalWrite, Deliverable, DepartmentPlanTask, CompanyPlan, PlanValidationIssue, Rules,
}
use i_breeze.Plan.Text.{is_blank, task_path, item_path, sorted_issues}
use i_breeze.Plan.Graph.{Graph, graph_has_cycle}

-- `not xs`
abbrev pub is_empty {ℓ} : {A : Type ℓ} → List A → Bool
is_empty [] = true
is_empty (_ ∷ _) = false

-- `{task.local_ref: tuple(task.dependency_refs) for task in tasks}`: a later task of the same reference
-- replaces the dependencies of an earlier one
unfoldable pub graph_from : Graph → List DepartmentPlanTask → Graph
graph_from g [] = g
graph_from g (t ∷ ts) = graph_from (put t.local_ref t.dependency_refs g) ts

unfoldable pub has_cycle : List DepartmentPlanTask → Option Bool
has_cycle tasks = graph_has_cycle (graph_from [] tasks)

-- `set(xs)`
unfoldable pub to_set : List String → List String
to_set [] = []
to_set (x ∷ xs) = let rest = to_set xs in if contains x rest then rest else x ∷ rest

-- `if broken: issues.append(...)`
abbrev pub issue_if : Bool → String → String → String → List PlanValidationIssue
issue_if broken rule path message =
    if broken then record { rule_id = rule; path = path; message = message } ∷ [] else []

abbrev pub common : List String → List String → Bool
common xs ys = any (λ x. contains x ys) xs

unfoldable pub deliverable_issues : Rules → String → ℕ → Deliverable → List PlanValidationIssue
deliverable_issues r ref index d =
    let contributors = d.contributor_employee_ids in
    let reviewers = d.reviewer_employee_ids in
    let outside = λ (e : String). not (contains e r.allowed_employee_ids) in
    issue_if
      (is_empty contributors || is_empty reviewers || any outside (contributors ++ reviewers))
      "PV-005" (item_path ref "deliverables" index)
      "Employee reference is outside the company or missing."
    ++ (issue_if (common contributors reviewers) "PV-008" (item_path ref "deliverables" index)
          "A contributor cannot review the same artifact."
        ++ issue_if (str_eq d.review_strategy "" || d.review_rounds == 0) "PV-007"
            (item_path ref "deliverables" index) "Review strategy and review rounds are required.")

unfoldable pub write_issues : Rules → String → ℕ → ExternalWrite → List PlanValidationIssue
write_issues r ref index w =
    issue_if (not (starts_with w.target "/") || is_blank w.expected_effect) "PV-006"
      (item_path ref "required_external_writes" index)
      "External writes require an absolute target and effect summary."
    ++ issue_if
        (not (is_empty r.product_permission_limits)
          && contains w.action r.product_permission_limits)
        "PV-011" (item_path ref "required_external_writes" index)
        "External write action exceeds product permission limits."

-- `for index, item in enumerate(items)`
abbrev pub for_each {ℓ} :
    {A : Type ℓ} → (ℕ → A → List PlanValidationIssue) → ℕ → List A → List PlanValidationIssue
for_each body index [] = []
for_each body index (x ∷ xs) = body index x ++ for_each body (index + 1) xs

unfoldable pub task_issues : Rules → List String → DepartmentPlanTask → List PlanValidationIssue
task_issues r references t =
    let ref = t.local_ref in
    issue_if
      (not (contains t.department_id r.active_department_ids)
        || not (contains t.department_id r.candidate_department_ids)
          && not t.general_manager_office_temporary_assignment)
      "PV-002" (task_path ref "department_id")
      "Department is inactive or outside the responsibility candidates."
    ++ (issue_if (not (contains t.department_id r.active_leader_department_ids)) "PV-004"
          (task_path ref "department_id") "Department has no active leader."
        ++ (issue_if (any (λ d. not (contains d references) || str_eq d ref) t.dependency_refs)
              "PV-003" (task_path ref "dependency_refs")
              "Dependency is missing or self-referential."
            ++ (for_each (deliverable_issues r ref) 0 t.deliverables
                ++ (issue_if
                      (not (is_empty r.emergency_disabled_capability_tags)
                        && common t.required_capability_tags r.emergency_disabled_capability_tags)
                      "PV-010" (task_path ref "required_capability_tags")
                      "Task uses emergency-disabled capabilities."
                    ++ for_each (write_issues r ref) 0 t.required_external_writes))))

unfoldable pub incomplete : DepartmentPlanTask → Bool
incomplete t = is_blank t.objective || is_empty t.deliverables || is_empty t.acceptance_criteria

abbrev pub each_task :
    (DepartmentPlanTask → List PlanValidationIssue)
    → List DepartmentPlanTask
    → List PlanValidationIssue
each_task body [] = []
each_task body (t ∷ ts) = body t ++ each_task body ts

-- The issues in the order in which they are appended; `cyclic` is what `_has_cycle` returned.
unfoldable pub raised : Rules → CompanyPlan → Bool → List PlanValidationIssue
raised r plan cyclic =
    let tasks = plan.department_tasks in
    let references = map (λ (t : DepartmentPlanTask). t.local_ref) tasks in
    issue_if (is_empty plan.goals || is_empty tasks || any incomplete tasks) "PV-001"
      "department_tasks" "Goals, objectives, deliverables and acceptance criteria are required."
    ++ (issue_if (not (length (to_set references) == length references)) "PV-003"
          "department_tasks.local_ref" "Task references must be unique."
        ++ (each_task (task_issues r references) tasks
            ++ (issue_if cyclic "PV-003" "department_tasks.dependency_refs"
                  "Department task dependencies contain a cycle."
                ++ issue_if (is_empty plan.final_acceptance_criteria) "PV-009"
                    "final_acceptance_criteria" "Final acceptance criteria are required.")))

-- `none` only if the search for a cycle ran out of fuel.
unfoldable pub validate_plan : Rules → CompanyPlan → Option (List PlanValidationIssue)
validate_plan r plan = elim (has_cycle plan.department_tasks) [
  | none ↦ none
  | some cyclic ↦ some (sorted_issues (raised r plan cyclic))
]
