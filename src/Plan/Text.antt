-- ===== src/Plan/Text.antt =====
-- The texts of sidecar/ibreeze/orchestration/plan_validator.py: blank texts, numbers in f-strings, and the
-- order of `sorted`.
use Prim.Native.Char.{code}
use Prim.Native.String.{compare, ◌++◌}
use Prim.Native.Nat.{Ordering}
use i_breeze.Prelude.{
  ◌≡◌, ◌≢◌, ◌↔◌, refl, arith, ℕ, zero, suc, ◌/◌, ◌%◌, String, Bool, true, false, ◌&&◌, ◌||◌, List,
  [], ◌∷◌, ltb, leb, ◌==◌, if◌then◌else◌,
}
use i_breeze.Plan.Model.{PlanValidationIssue}

-- `str.isspace` of one character
abbrev pub is_space : ℕ → Bool
is_space c =
    leb 9 c && leb c 13
    || leb 28 c && leb c 32
    || c == 133
    || c == 160
    || c == 5760
    || leb 8192 c && leb c 8202
    || c == 8232
    || c == 8233
    || c == 8239
    || c == 8287
    || c == 12288

-- `not text.strip()`
unfoldable pub is_blank : String → Bool
is_blank String.[] = true
is_blank (String.◌∷◌ c s) = is_space (code c) && is_blank s

digit : ℕ → String
digit d =
    if d == 0
    then "0"
    else if d == 1
    then "1"
    else if d == 2
    then "2"
    else if d == 3
    then "3"
    else if d == 4
    then "4"
    else if d == 5
    then "5"
    else if d == 6
    then "6"
    else if d == 7
    then "7"
    else if d == 8
    then "8"
    else "9"

-- `str(n)`; a number has fewer than n + 1 digits.
show_digits : ℕ → ℕ → String
show_digits zero n = ""
show_digits (suc fuel) n =
    let higher = show_digits fuel (n / 10) in if ltb n 10 then digit n else higher ++ digit (n % 10)

unfoldable pub show : ℕ → String
unfolding show_digits digit
show n = show_digits (suc n) n

-- f"department_tasks.{ref}.{field}" and f"department_tasks.{ref}.{field}.{index}"
unfoldable pub task_path : String → String → String
task_path ref field = "department_tasks." ++ ref ++ "." ++ field

unfoldable pub item_path : String → String → ℕ → String
unfolding task_path show
item_path ref field index = task_path ref field ++ "." ++ show index

abbrev pub not_after : Ordering → Bool → Bool
not_after Ordering.lt equal = true
not_after Ordering.eq equal = equal
not_after Ordering.gt equal = false

-- the order of the keys `(issue.rule_id, issue.path, issue.message)`
unfoldable pub key_le : PlanValidationIssue → PlanValidationIssue → Bool
key_le a b =
    not_after (compare a.rule_id b.rule_id)
      (not_after (compare a.path b.path) (not_after (compare a.message b.message) true))

insert_issue : PlanValidationIssue → List PlanValidationIssue → List PlanValidationIssue
insert_issue a [] = a ∷ []
insert_issue a (b ∷ rest) = if key_le a b then a ∷ b ∷ rest else b ∷ insert_issue a rest

-- `sorted`: stable, since an issue goes before the later ones of its key
unfoldable pub sorted_issues : List PlanValidationIssue → List PlanValidationIssue
unfolding insert_issue key_le
sorted_issues [] = []
sorted_issues (a ∷ rest) = insert_issue a (sorted_issues rest)

insert_issue-ne_nil :
    (a : PlanValidationIssue) (xs : List PlanValidationIssue) → insert_issue a xs ≢ []
unfolding insert_issue
insert_issue-ne_nil a [] = λ e. cc
insert_issue-ne_nil a (b ∷ rest) = ground arith

pub sorted_issues-nil_iff : (xs : List PlanValidationIssue) → (sorted_issues xs ≡ []) ↔ (xs ≡ [])
unfolding sorted_issues
sorted_issues-nil_iff [] = (λ h. refl, λ h. refl)
sorted_issues-nil_iff (x ∷ xs) = (λ h. absurd (insert_issue-ne_nil x (sorted_issues xs) h), λ h. cc)
