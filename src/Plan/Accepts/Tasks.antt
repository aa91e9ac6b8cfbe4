-- ===== src/Plan/Accepts/Tasks.antt =====
-- The rules of sidecar/ibreeze/orchestration/plan_validator.py for one task, and unique references.
use i_breeze.Prelude.{
  subst, or-eq_false, append-nil_iff, suc, ◌≤◌, String, ◌≡◌, ◌⊎◌, ◌↔◌, inl, inr, refl, ap, Bool,
  true, false, not, ◌||◌, ◌&&◌, List, [], ◌∷◌, Memᴰ, arith, contains, contains→Mem, Mem→contains,
  any, any-false_iff, str_eq, eq_iff, Bool-cases, length,
}
use i_breeze.Plan.Model.{DepartmentPlanTask, Rules}
use i_breeze.Plan.Text.{is_blank}
use i_breeze.Plan.Validate.{
  issue_if, is_empty, common, to_set, for_each, deliverable_issues, write_issues, task_issues,
  incomplete,
}
use i_breeze.Plan.Accepts.Conditions.{TaskAccepted, Distinct}
use i_breeze.Plan.Accepts.Parts.{
  not_true, common-false_iff, is_empty-false_iff, for_each-nil_iff, deliverable_issues-nil_iff,
  write_issues-nil_iff,
}

-- The tests of a task that are not about its items.
record TaskTests (r : Rules) (references : List String) (t : DepartmentPlanTask) : Type 0 where
  active : contains t.department_id r.active_department_ids ≡ true
  matched :
      (contains t.department_id r.candidate_department_ids
        || t.general_manager_office_temporary_assignment)
      ≡ true
  led : contains t.department_id r.active_leader_department_ids ≡ true
  dependencies :
      any (λ d. not (contains d references) || str_eq d t.local_ref) t.dependency_refs ≡ false
  deliverables : for_each (deliverable_issues r t.local_ref) 0 t.deliverables ≡ []
  tags :
      (not (is_empty r.emergency_disabled_capability_tags)
        && common t.required_capability_tags r.emergency_disabled_capability_tags)
      ≡ false
  writes : for_each (write_issues r t.local_ref) 0 t.required_external_writes ≡ []

pub issue_if-nil :
    (b : Bool) (rule path message : String) → issue_if b rule path message ≡ [] → b ≡ false
issue_if-nil true rule path message h = cc
issue_if-nil false rule path message h = refl

TaskTests-of_nil :
    (r : Rules) (references : List String) (t : DepartmentPlanTask)
    → task_issues r references t ≡ []
    → TaskTests r references t
unfolding task_issues
TaskTests-of_nil r references t h =
    let a = (append-nil_iff _ _).0 h in
    let b = (append-nil_iff _ _).0 a.1 in
    let c = (append-nil_iff _ _).0 b.1 in
    let d = (append-nil_iff _ _).0 c.1 in
    let e = (append-nil_iff _ _).0 d.1 in
    let outside =
      not (contains t.department_id r.active_department_ids)
      || not (contains t.department_id r.candidate_department_ids)
        && not t.general_manager_office_temporary_assignment in
    let dept = issue_if-nil outside _ _ _ a.0 in
    let leader =
      issue_if-nil (not (contains t.department_id r.active_leader_department_ids)) _ _ _ b.0 in
    record {
      active = ground (arith, dept);
      matched = ground (arith, dept);
      led = ground (arith, leader);
      dependencies =
          issue_if-nil
            (any (λ d. not (contains d references) || str_eq d t.local_ref) t.dependency_refs) _ _ _
            c.0;
      deliverables = d.0;
      tags =
          issue_if-nil
            (not (is_empty r.emergency_disabled_capability_tags)
              && common t.required_capability_tags r.emergency_disabled_capability_tags)
            _ _ _ e.0;
      writes = e.1;
    }

nil_of_TaskTests :
    (r : Rules) (references : List String) (t : DepartmentPlanTask)
    → TaskTests r references t
    → task_issues r references t ≡ []
unfolding task_issues
nil_of_TaskTests r references t h = ground arith

tags_iff :
    (tags disabled : List String)
    → ((not (is_empty disabled) && common tags disabled) ≡ false)
      ↔ ((tag : String) → Memᴰ tag tags → ¬ Memᴰ tag disabled)
tags_iff tags [] = (λ h tag i m. elim m [ ], λ n. refl)
tags_iff tags (x ∷ xs) = common-false_iff tags (x ∷ xs)

-- `set` keeps the members, and its size tells whether a text occurs twice.
contains-to_set : (x : String) (xs : List String) → contains x (to_set xs) ≡ contains x xs
unfolding to_set
contains-to_set x [] = refl
contains-to_set x (y ∷ ys) = ground (arith, contains-to_set x ys, contains-to_set y ys, eq_iff y x)

to_set-le : (xs : List String) → length (to_set xs) ≤ length xs
unfolding to_set
to_set-le [] = omega arith
to_set-le (x ∷ xs) = ground (arith, to_set-le xs)

to_set-cons_in :
    (x : String) (xs : List String) → contains x xs ≡ true → to_set (x ∷ xs) ≡ to_set xs
unfolding to_set
to_set-cons_in x xs i = rw (contains-to_set x xs, i)

to_set-cons_out :
    (x : String) (xs : List String) → contains x xs ≡ false → to_set (x ∷ xs) ≡ x ∷ to_set xs
unfolding to_set
to_set-cons_out x xs i = rw (contains-to_set x xs, i)

pub to_set_iff : (xs : List String) → (length (to_set xs) ≡ length xs) ↔ Distinct xs
unfolding to_set
to_set_iff [] = (λ h. tt, λ h. refl)
to_set_iff (x ∷ xs) = elim (Bool-cases (contains x xs)) [
  | inl i ↦
      rw (to_set-cons_in x xs i)
        (λ h. absurd (omega (arith, to_set-le xs, h)), λ d. absurd (d.0 (contains→Mem x xs i)))
  | inr i ↦ rw (to_set-cons_out x xs i) (
    λ h. (λ m. cc (i, Mem→contains x xs m), (to_set_iff xs).0 (omega (arith, h))),
    λ d. ap suc ((to_set_iff xs).1 d.1),
  )
]

dependencies_iff :
    (ref : String) (references ds : List String)
    → (any (λ d. not (contains d references) || str_eq d ref) ds ≡ false)
      ↔ (((d : String) → Memᴰ d ds → Memᴰ d references) × (¬ Memᴰ ref ds))
dependencies_iff ref references ds = (there, back)
  where
    p : String → Bool
    p d = not (contains d references) || str_eq d ref

    there : any p ds ≡ false → ((d : String) → Memᴰ d ds → Memᴰ d references) × (¬ Memᴰ ref ds)
    there h =
        let f = (any-false_iff p ds).0 h in
        (
          λ d m. contains→Mem d references (ground (arith, f d m)),
          λ m. cc (
            (or-eq_false (not (contains ref references)) (str_eq ref ref) (f ref m)).1,
            (eq_iff ref ref).1 refl,
          ),
        )

    back : ((d : String) → Memᴰ d ds → Memᴰ d references) × (¬ Memᴰ ref ds) → any p ds ≡ false
    back h = (any-false_iff p ds).1 λ d m.
        rw (Mem→contains d references (h.0 d m))
          (not_true (λ e. h.1 (subst (λ x. Memᴰ x ds) ((eq_iff d ref).0 e) m)))

matched_iff :
    (d : String) (candidates : List String) (temporary : Bool)
    → ((contains d candidates || temporary) ≡ true) ↔ (Memᴰ d candidates ⊎ (temporary ≡ true))
matched_iff d candidates temporary = (there, back)
  where
    there : (contains d candidates || temporary) ≡ true → Memᴰ d candidates ⊎ (temporary ≡ true)
    there h = elim (Bool-cases (contains d candidates)) [
      | inl y ↦ inl (contains→Mem d candidates y)
      | inr f ↦ inr (rw f at h)
    ]

    back : Memᴰ d candidates ⊎ (temporary ≡ true) → (contains d candidates || temporary) ≡ true
    back (inl m) = rw (Mem→contains d candidates m)
    back (inr e) = ground arith

-- A task is complete and raises no issue of its own exactly if it is accepted.
pub TaskAccepted-iff :
    (r : Rules) (references : List String) (t : DepartmentPlanTask)
    → ((incomplete t ≡ false) × (task_issues r references t ≡ [])) ↔ TaskAccepted r references t
unfolding incomplete
TaskAccepted-iff r references t = (there, back)
  where
    there : (incomplete t ≡ false) × (task_issues r references t ≡ []) → TaskAccepted r references t
    there h =
        let x =
          or-eq_false (is_blank t.objective || is_empty t.deliverables)
            (is_empty t.acceptance_criteria) h.0 in
        let y = or-eq_false (is_blank t.objective) (is_empty t.deliverables) x.0 in
        let a = TaskTests-of_nil r references t h.1 in
        let ds = (dependencies_iff t.local_ref references t.dependency_refs).0 a.dependencies in
        record {
          objective_given = y.0;
          deliverables_given = (is_empty-false_iff t.deliverables).0 y.1;
          criteria_given = (is_empty-false_iff t.acceptance_criteria).0 x.1;
          active = contains→Mem _ _ a.active;
          matched = (matched_iff t.department_id r.candidate_department_ids _).0 a.matched;
          led = contains→Mem _ _ a.led;
          dependencies_known = ds.0;
          dependencies_other = ds.1;
          tags_enabled =
              (tags_iff t.required_capability_tags r.emergency_disabled_capability_tags).0 a.tags;
          deliverables_accepted =
              (for_each-nil_iff _ _ (deliverable_issues-nil_iff r t.local_ref) t.deliverables 0).0
                a.deliverables;
          writes_accepted =
              (for_each-nil_iff _ _ (write_issues-nil_iff r t.local_ref) t.required_external_writes
                  0).0
                a.writes;
        }

    back : TaskAccepted r references t → (incomplete t ≡ false) × (task_issues r references t ≡ [])
    back a = (
      rw (a.objective_given, (is_empty-false_iff t.deliverables).1 a.deliverables_given)
          ((is_empty-false_iff t.acceptance_criteria).1 a.criteria_given),
      nil_of_TaskTests r references t (record {
        active = Mem→contains _ _ a.active;
        matched = (matched_iff t.department_id r.candidate_department_ids _).1 a.matched;
        led = Mem→contains _ _ a.led;
        dependencies =
            (dependencies_iff t.local_ref references t.dependency_refs).1
              (a.dependencies_known, a.dependencies_other);
        deliverables =
            (for_each-nil_iff _ _ (deliverable_issues-nil_iff r t.local_ref) t.deliverables 0).1
              a.deliverables_accepted;
        tags =
            (tags_iff t.required_capability_tags r.emergency_disabled_capability_tags).1
              a.tags_enabled;
        writes =
            (for_each-nil_iff _ _ (write_issues-nil_iff r t.local_ref) t.required_external_writes
                0).1
              a.writes_accepted;
      }),
    )
