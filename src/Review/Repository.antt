-- ===== src/Review/Repository.antt =====
-- sidecar/ibreeze/domain/review/state.py and the transition of issues in
-- sidecar/ibreeze/domain/review/repository.py, over the table review_issues by its primary key; the
-- time of the update, which the entity does not have, is left out. `active`
-- stands for the query of active employees, `strip` and `len` for Python's functions on texts.
use i_breeze.Prelude.{
  ℕ, ◌+◌, ltb, ◌==◌, String, str_eq, Bool, not, ◌&&◌, ◌||◌, Option, none, some, List, [], ◌∷◌,
  contains, lookup, put, if◌then◌else◌,
}
use i_breeze.Result.{guard, Result, ok, err, ◌>>=◌}

abbrev pub Edges : Type 0
Edges = List (String × List String)

unfoldable pub assignment_transitions : Edges
assignment_transitions =
    ("assigned", "in_review" ∷ "stale" ∷ "cancelled" ∷ [])
    ∷ ("in_review", "submitted" ∷ "stale" ∷ "cancelled" ∷ [])
    ∷ ("submitted", "stale" ∷ [])
    ∷ ("stale", [])
    ∷ ("cancelled", [])
    ∷ []

unfoldable pub issue_transitions : Edges
issue_transitions =
    ("open", "fixing" ∷ "rejected" ∷ [])
    ∷ ("fixing", "resolved" ∷ [])
    ∷ ("resolved", "verified" ∷ "fixing" ∷ [])
    ∷ ("verified", "closed" ∷ "fixing" ∷ [])
    ∷ ("closed", [])
    ∷ ("rejected", [])
    ∷ []

-- `table.get(state, frozenset())`
abbrev pub allowed_from : Edges → String → List String
allowed_from edges state = elim (lookup state edges) [ none ↦ [] | some targets ↦ targets ]

pub record ReviewIssue : Type 0 where
  pub id : String
  pub company_id : String
  pub severity : String
  pub category : String
  pub state : String
  pub version : ℕ
  pub assignee_employee_id : Option String
  pub evidence_refs : List String
  pub verifier_employee_id : Option String
  pub rejection_reason : Option String

abbrev pub Issues : Type 0
Issues = List (String × ReviewIssue)

-- `rejection_reason or ""`
abbrev pub or_empty : Option String → String
or_empty none = ""
or_empty (some s) = s

module _ (active : String → String → Bool) (strip : String → String) (len : String → ℕ) where
  unfoldable pub check_verifier : ReviewIssue → String → Option String → Result String (Unit {0})
  check_verifier issue target none =
      if str_eq target "verified" then err "VERIFIER_REQUIRED" else ok tt
  check_verifier issue target (some v) =
      if str_eq target "verified"
      then guard (active v issue.company_id) "VERIFIER_NOT_AVAILABLE"
      else err "VERIFIER_NOT_ALLOWED"

  abbrev pub reason_ok : Option String → Bool
  reason_ok reason =
      not (str_eq (strip (or_empty reason)) "") && not (ltb 2000 (len (strip (or_empty reason))))

  -- The tests of `transition_issue`, in order.
  unfoldable pub check_issue :
      ReviewIssue → String → Option String → Option String → Result String (Unit {0})
  unfolding issue_transitions check_verifier
  check_issue issue target verifier reason = do
    _ ←
        guard (contains target (allowed_from issue_transitions issue.state))
          "STATE_TRANSITION_INVALID"
    _ ←
        guard
          (not (
            str_eq target "rejected"
            && (str_eq issue.severity "blocker" || str_eq issue.severity "high")))
          "BLOCKER_HIGH_CANNOT_BE_REJECTED"
    _ ← guard (not (str_eq target "rejected") || reason_ok reason) "REJECTION_REASON_REQUIRED"
    check_verifier issue target verifier

  -- `issue` with the new state: what the UPDATE makes of a row, and what is returned for the issue given.
  unfoldable pub moved : String → Option String → Option String → ℕ → ReviewIssue → ReviewIssue
  moved target verifier reason version issue = record issue {
    state = target;
    version = version;
    verifier_employee_id =
        if str_eq target "verified" then verifier else issue.verifier_employee_id;
    rejection_reason =
        if str_eq target "rejected" then some (strip (or_empty reason)) else issue.rejection_reason;
  }

  -- The UPDATE by id, company and version; `none` if it changed no row.
  unfoldable pub update_issue :
      Issues → ReviewIssue → String → Option String → Option String → Option Issues
  unfolding moved
  update_issue db issue target verifier reason = elim (lookup issue.id db) [
    | none ↦ none
    | some row ↦
        if str_eq row.company_id issue.company_id && row.version == issue.version
        then some (put issue.id (moved target verifier reason (row.version + 1) row) db)
        else none
  ]

  unfoldable pub transition_issue :
      Issues
      → ReviewIssue
      → String
      → Option String
      → Option String
      → Result String (ReviewIssue × Issues)
  unfolding check_issue update_issue
  transition_issue db issue target verifier reason = do
    _ ← check_issue issue target verifier reason
    elim (update_issue db issue target verifier reason) [
      | none ↦ err "OPTIMISTIC_LOCK_CONFLICT"
      | some db' ↦ ok (moved target verifier reason (issue.version + 1) issue, db')
    ]
