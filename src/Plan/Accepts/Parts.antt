-- ===== src/Plan/Accepts/Parts.antt =====
-- The rules of sidecar/ibreeze/orchestration/plan_validator.py for deliverables and external writes.
use i_breeze.Prelude.{
  subst, sym, or-eq_false, any-append, ◌&&◌, ℕ, ◌+◌, String, ◌≡◌, ◌≢◌, ◌↔◌, inl, inr, refl, Bool,
  true, false, not, List, [], ◌∷◌, ◌++◌, Memᴰ, arith, contains, contains→Mem, Mem→contains, any,
  any-false_iff, append-nil_iff, str_eq, eq_iff, starts_with, starts_with_iff, ◌==◌, Bool-cases,
}
use i_breeze.Plan.Model.{ExternalWrite, Deliverable, PlanValidationIssue, Rules}
use i_breeze.Plan.Text.{is_blank}
use i_breeze.Plan.Validate.{is_empty, common, deliverable_issues, write_issues, for_each}
use i_breeze.Plan.Accepts.Conditions.{DeliverableAccepted, WriteAccepted}

pub not_true : {b : Bool} → ¬ (b ≡ true) → b ≡ false
not_true {b} n = elim (Bool-cases b) [ inl y ↦ absurd (n y) | inr e ↦ e ]

pub is_empty-false_iff {ℓ} : {A : Type ℓ} (xs : List A) → (is_empty xs ≡ false) ↔ (xs ≢ [])
is_empty-false_iff [] = (λ h. cc, λ n. absurd (n refl))
is_empty-false_iff (x ∷ xs) = (λ h e. cc, λ n. refl)

pub common-false_iff :
    (xs ys : List String) → (common xs ys ≡ false) ↔ ((e : String) → Memᴰ e xs → ¬ Memᴰ e ys)
common-false_iff xs ys = (
  λ h e i j. cc ((any-false_iff (λ x. contains x ys) xs).0 h e i, Mem→contains e ys j),
  λ n.
      (any-false_iff (λ x. contains x ys) xs).1
        (λ e i. not_true (λ c. n e i (contains→Mem e ys c))),
)

-- A loop that appends nothing accepts every item.
pub for_each-nil_iff {ℓ} :
    {A : Type ℓ} (body : ℕ → A → List PlanValidationIssue) (P : A → Type 0)
    → ((i : ℕ) (x : A) → (body i x ≡ []) ↔ P x)
    → (xs : List A) (i : ℕ) → (for_each body i xs ≡ []) ↔ ((x : A) → Memᴰ x xs → P x)
for_each-nil_iff {A} body P iff xs i = (there xs i, back xs i)
  where
    there : (ys : List A) (j : ℕ) → for_each body j ys ≡ [] → (x : A) → Memᴰ x ys → P x
    there [] j h x m = elim m [ ]
    there (y ∷ ys) j h x (Memᴰ.head e) =
        subst P (sym e) ((iff j y).0 ((append-nil_iff (body j y) _).0 h).0)
    there (y ∷ ys) j h x (Memᴰ.tail m) = there ys (j + 1) ((append-nil_iff (body j y) _).0 h).1 x m

    back : (ys : List A) (j : ℕ) → ((x : A) → Memᴰ x ys → P x) → for_each body j ys ≡ []
    back [] j h = refl
    back (y ∷ ys) j h =
        (append-nil_iff (body j y) _).1
          ((iff j y).1 (h y (Memᴰ.head refl)), back ys (j + 1) (λ x m. h x (Memᴰ.tail m)))

deliverable_tests :
    (r : Rules) (ref : String) (i : ℕ) (d : Deliverable)
    → (deliverable_issues r ref i d ≡ []) ↔ (
        (is_empty d.contributor_employee_ids ≡ false)
        × (is_empty d.reviewer_employee_ids ≡ false)
        × (any
              (λ e. not (contains e r.allowed_employee_ids))
              (d.contributor_employee_ids ++ d.reviewer_employee_ids)
            ≡ false)
        × (common d.contributor_employee_ids d.reviewer_employee_ids ≡ false)
        × (str_eq d.review_strategy "" ≡ false)
        × ((d.review_rounds == 0) ≡ false))
unfolding deliverable_issues
deliverable_tests r ref i d = (λ h. ground arith, λ h. ground arith)

-- All of a list is in another.
pub none_outside_iff :
    (xs allowed : List String)
    → (any (λ e. not (contains e allowed)) xs ≡ false) ↔ ((e : String) → Memᴰ e xs → Memᴰ e allowed)
none_outside_iff xs allowed = (
  λ h e i.
      let f : not (contains e allowed) ≡ false =
        (any-false_iff (λ x. not (contains x allowed)) xs).0 h e i in
      contains→Mem e allowed (ground arith),
  λ n.
      (any-false_iff (λ x. not (contains x allowed)) xs).1
        (λ e i. rw (Mem→contains e allowed (n e i))),
)

pub not_blank : (s : String) → (str_eq s "" ≡ false) ↔ (s ≢ "")
not_blank s = (λ h e. cc ((eq_iff s "").1 e, h), λ n. not_true (λ e. n ((eq_iff s "").0 e)))

not_zero : (n : ℕ) → ((n == 0) ≡ false) ↔ (n ≢ 0)
not_zero n = (λ h. ground arith, λ h. ground arith)

pub deliverable_issues-nil_iff :
    (r : Rules) (ref : String) (i : ℕ) (d : Deliverable)
    → (deliverable_issues r ref i d ≡ []) ↔ DeliverableAccepted r d
deliverable_issues-nil_iff r ref i d = (there, back)
  where
    open d use {contributor_employee_ids as cs, reviewer_employee_ids as rs}

    there : deliverable_issues r ref i d ≡ [] → DeliverableAccepted r d
    there h =
        let t = (deliverable_tests r ref i d).0 h in
        let o = or-eq_false _ _ (rw any-append at t.2) in
        record {
          contributors_given = (is_empty-false_iff cs).0 t.0;
          reviewers_given = (is_empty-false_iff rs).0 t.1;
          contributors_allowed = (none_outside_iff cs r.allowed_employee_ids).0 o.0;
          reviewers_allowed = (none_outside_iff rs r.allowed_employee_ids).0 o.1;
          independent = (common-false_iff cs rs).0 t.3;
          strategy_given = (not_blank d.review_strategy).0 t.4;
          rounds_given = (not_zero d.review_rounds).0 t.5;
        }

    back : DeliverableAccepted r d → deliverable_issues r ref i d ≡ []
    back a = (deliverable_tests r ref i d).1 (
      (is_empty-false_iff cs).1 a.contributors_given,
      (is_empty-false_iff rs).1 a.reviewers_given,
      rw any-append (
          rw ((none_outside_iff cs r.allowed_employee_ids).1 a.contributors_allowed)
            ((none_outside_iff rs r.allowed_employee_ids).1 a.reviewers_allowed)),
      (common-false_iff cs rs).1 a.independent,
      (not_blank d.review_strategy).1 a.strategy_given,
      (not_zero d.review_rounds).1 a.rounds_given,
    )

write_tests :
    (r : Rules) (ref : String) (i : ℕ) (w : ExternalWrite)
    → (write_issues r ref i w ≡ []) ↔ (
        (starts_with w.target "/" ≡ true)
        × (is_blank w.expected_effect ≡ false)
        × (not (is_empty r.product_permission_limits)
              && contains w.action r.product_permission_limits
            ≡ false))
unfolding write_issues
write_tests r ref i w = (λ h. ground arith, λ h. ground arith)

-- A test for members that is skipped for the empty list.
pub guarded_iff :
    (x : String) (xs : List String) → (not (is_empty xs) && contains x xs ≡ false) ↔ (¬ Memᴰ x xs)
guarded_iff x [] = (λ h m. elim m [ ], λ n. refl)
guarded_iff x (y ∷ ys) =
    (λ h m. cc (h, Mem→contains x (y ∷ ys) m), λ n. not_true (λ c. n (contains→Mem x (y ∷ ys) c)))

pub write_issues-nil_iff :
    (r : Rules) (ref : String) (i : ℕ) (w : ExternalWrite)
    → (write_issues r ref i w ≡ []) ↔ WriteAccepted r w
write_issues-nil_iff r ref i w = (
  λ h.
      let t = (write_tests r ref i w).0 h in
      record {
        absolute = (starts_with_iff w.target "/").0 t.0;
        effect_given = t.1;
        permitted = (guarded_iff w.action r.product_permission_limits).0 t.2;
      },
  λ a. (write_tests r ref i w).1 (
    (starts_with_iff w.target "/").1 a.absolute,
    a.effect_given,
    (guarded_iff w.action r.product_permission_limits).1 a.permitted,
  ),
)
