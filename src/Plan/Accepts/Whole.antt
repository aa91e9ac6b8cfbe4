-- ===== src/Plan/Accepts/Whole.antt =====
-- `validate_plan` of sidecar/ibreeze/orchestration/plan_validator.py against the conditions of a plan.
use i_breeze.Prelude.{
  String, ◌≡◌, ◌↔◌, refl, Bool, true, false, not, ◌||◌, List, [], ◌∷◌, Memᴰ, arith, some, any,
  any-false_iff, append-nil_iff, or-eq_false, length, ◌==◌, ==_iff,
}
use i_breeze.Plan.Model.{DepartmentPlanTask, CompanyPlan, PlanValidationIssue, Rules}
use i_breeze.Plan.Text.{sorted_issues, sorted_issues-nil_iff}
use i_breeze.Plan.Graph.{graph_has_cycle}
use i_breeze.Plan.Cycle.Relation.{Leads}
use i_breeze.Plan.Cycle.Decides.{graph_has_cycle-Decides}
use i_breeze.Plan.Validate.{
  is_empty, to_set, each_task, task_issues, incomplete, raised, has_cycle, graph_from,
  validate_plan,
}
use i_breeze.Plan.Accepts.Conditions.{refs_of, PlanAccepted}
use i_breeze.Plan.Accepts.Parts.{not_true, is_empty-false_iff}
use i_breeze.Plan.Accepts.Tasks.{issue_if-nil, to_set_iff, TaskAccepted-iff}

each_task-nil_iff :
    (body : DepartmentPlanTask → List PlanValidationIssue) (ts : List DepartmentPlanTask)
    → (each_task body ts ≡ []) ↔ ((t : DepartmentPlanTask) → Memᴰ t ts → body t ≡ [])
each_task-nil_iff body ts = (there ts, back ts)
  where
    there :
        (us : List DepartmentPlanTask)
        → each_task body us ≡ []
        → (t : DepartmentPlanTask) → Memᴰ t us
        → body t ≡ []
    there [] h t m = elim m [ ]
    there (u ∷ us) h t (Memᴰ.head e) = rw e ((append-nil_iff (body u) _).0 h).0
    there (u ∷ us) h t (Memᴰ.tail m) = there us ((append-nil_iff (body u) _).0 h).1 t m

    back :
        (us : List DepartmentPlanTask)
        → ((t : DepartmentPlanTask) → Memᴰ t us → body t ≡ [])
        → each_task body us ≡ []
    back [] h = refl
    back (u ∷ us) h =
        (append-nil_iff (body u) _).1 (h u (Memᴰ.head refl), back us (λ t m. h t (Memᴰ.tail m)))

-- The tests behind the issues of a whole plan.
record PlanTests (r : Rules) (plan : CompanyPlan) (cyclic : Bool) : Type 0 where
  given :
      (is_empty plan.goals
        || is_empty plan.department_tasks
        || any incomplete plan.department_tasks)
      ≡ false
  unique : length (to_set (refs_of plan)) ≡ length (refs_of plan)
  tasks : each_task (task_issues r (refs_of plan)) plan.department_tasks ≡ []
  acyclic : cyclic ≡ false
  final : is_empty plan.final_acceptance_criteria ≡ false

PlanTests-of_nil :
    (r : Rules) (plan : CompanyPlan) (cyclic : Bool)
    → raised r plan cyclic ≡ []
    → PlanTests r plan cyclic
unfolding raised
PlanTests-of_nil r plan cyclic h =
    let a = (append-nil_iff _ _).0 h in
    let b = (append-nil_iff _ _).0 a.1 in
    let c = (append-nil_iff _ _).0 b.1 in
    let d = (append-nil_iff _ _).0 c.1 in
    let size = not (length (to_set (refs_of plan)) == length (refs_of plan)) in
    let same = issue_if-nil size _ _ _ b.0 in
    record {
      given =
          issue_if-nil
            (is_empty plan.goals
              || is_empty plan.department_tasks
              || any incomplete plan.department_tasks)
            _ _ _ a.0;
      unique = ground (arith, same);
      tasks = c.0;
      acyclic = issue_if-nil cyclic _ _ _ d.0;
      final = issue_if-nil (is_empty plan.final_acceptance_criteria) _ _ _ d.1;
    }

nil_of_PlanTests :
    (r : Rules) (plan : CompanyPlan) (cyclic : Bool)
    → PlanTests r plan cyclic
    → raised r plan cyclic ≡ []
unfolding raised
nil_of_PlanTests r plan cyclic h =
    rw (h.given, (==_iff _ _).1 h.unique, h.tasks, h.acyclic, h.final)

-- `validate_plan` always returns a list of issues, and the list is empty exactly if the plan satisfies
-- every condition of `PlanAccepted`: goals, tasks, criteria and objectives are given, references are
-- distinct and known, departments active, matched and led, deliverables reviewed independently by
-- employees of the company, writes absolute, explained and permitted, no disabled capability is
-- required, and no task depends on itself over any number of steps.
pub validate_plan_iff :
    (r : Rules) (plan : CompanyPlan)
    → (issues : List PlanValidationIssue) × (validate_plan r plan ≡ some issues)
      × ((issues ≡ []) ↔ PlanAccepted r plan)
unfolding validate_plan has_cycle
validate_plan_iff r plan =
    (sorted_issues (raised r plan cyclic), rw (search.1, validate_plan, has_cycle), (there, back))
  where
    search :
        (b : Bool) × (graph_has_cycle (graph_from [] plan.department_tasks) ≡ some b)
        × ((b ≡ true) ↔ ((x : String) × Leads (graph_from [] plan.department_tasks) x x))
    search = graph_has_cycle-Decides (graph_from [] plan.department_tasks)

    cyclic : Bool
    cyclic = search.0

    there : sorted_issues (raised r plan cyclic) ≡ [] → PlanAccepted r plan
    there h =
        let a =
          PlanTests-of_nil r plan cyclic ((sorted_issues-nil_iff (raised r plan cyclic)).0 h) in
        let x =
          or-eq_false (is_empty plan.goals || is_empty plan.department_tasks)
            (any incomplete plan.department_tasks) a.given in
        let y = or-eq_false (is_empty plan.goals) (is_empty plan.department_tasks) x.0 in
        record {
          goals_given = (is_empty-false_iff plan.goals).0 y.0;
          tasks_given = (is_empty-false_iff plan.department_tasks).0 y.1;
          final_criteria_given = (is_empty-false_iff plan.final_acceptance_criteria).0 a.final;
          references_distinct = (to_set_iff (refs_of plan)).0 a.unique;
          tasks_accepted = λ t m. (TaskAccepted-iff r (refs_of plan) t).0 (
            (any-false_iff incomplete plan.department_tasks).0 x.1 t m,
            (each_task-nil_iff _ plan.department_tasks).0 a.tasks t m,
          );
          acyclic = λ n p. cc (a.acyclic, search.2.1 (n, p));
        }

    back : PlanAccepted r plan → sorted_issues (raised r plan cyclic) ≡ []
    back a = (sorted_issues-nil_iff (raised r plan cyclic)).1 (
        nil_of_PlanTests r plan cyclic (record {
          given =
              rw
                (
                  (is_empty-false_iff plan.goals).1 a.goals_given,
                  (is_empty-false_iff plan.department_tasks).1 a.tasks_given,
                )
                ((any-false_iff incomplete plan.department_tasks).1
                  λ t m. ((TaskAccepted-iff r (refs_of plan) t).1 (a.tasks_accepted t m)).0);
          unique = (to_set_iff (refs_of plan)).1 a.references_distinct;
          tasks =
              (each_task-nil_iff _ plan.department_tasks).1
                λ t m. ((TaskAccepted-iff r (refs_of plan) t).1 (a.tasks_accepted t m)).1;
          acyclic = not_true (λ c. let p = search.2.0 c in a.acyclic p.0 p.1);
          final = (is_empty-false_iff plan.final_acceptance_criteria).1 a.final_criteria_given;
        }))
