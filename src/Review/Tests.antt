-- ===== src/Review/Tests.antt =====
-- Runs of sidecar/ibreeze/domain/review/repository.py, and instances of its theorems.
use i_breeze.Prelude.{ℕ, String, Bool, [], ◌∷◌, none, some, ◌≡◌, ◌≢◌, refl, lookup, put, str_eq}
use i_breeze.Result.{ok, err}
use i_breeze.Review.Repository.{
  ReviewIssue, issue_transitions, check_verifier, check_issue, moved, update_issue,
  transition_issue,
}
use i_breeze.Review.Locking.{Sound, transition_issue-once, transition_issue-Sound}

abbrev works : String → String → Bool
works employee company = str_eq employee "e1"

abbrev as_is : String → String
as_is s = s

abbrev short : String → ℕ
short s = 10

abbrev blocker : ReviewIssue
blocker = record {
  id = "i1";
  company_id = "acme";
  severity = "blocker";
  category = "security";
  state = "open";
  version = 1;
  assignee_employee_id = none;
  evidence_refs = [];
  verifier_employee_id = none;
  rejection_reason = none;
}

abbrev fixing : ReviewIssue
fixing = record blocker { state = "fixing"; version = 2 }

transitions_run :
    (transition_issue works as_is short (("i1", blocker) ∷ []) blocker "fixing" none none
      ≡ ok (fixing, ("i1", fixing) ∷ []))
    × (transition_issue works as_is short (("i1", fixing) ∷ []) blocker "fixing" none none
        ≡ err "OPTIMISTIC_LOCK_CONFLICT")
    × (transition_issue works as_is short (("i1", blocker) ∷ []) blocker "rejected" none (some "no")
        ≡ err "BLOCKER_HIGH_CANNOT_BE_REJECTED")
    × (transition_issue works as_is short (("i1", blocker) ∷ []) blocker "closed" none none
        ≡ err "STATE_TRANSITION_INVALID")
unfolding transition_issue check_issue check_verifier update_issue moved issue_transitions lookup
    put
transitions_run = (refl, refl, refl, refl)

transition_issue-once_example :
    transition_issue works as_is short (("i1", fixing) ∷ []) blocker "rejected" none (some "no")
    ≢ ok (blocker, [])
transition_issue-once_example =
    transition_issue-once works as_is short (("i1", blocker) ∷ []) (("i1", fixing) ∷ []) blocker
      fixing "fixing" "rejected" none none none (some "no") (blocker, []) transitions_run.0

transition_issue-Sound_example :
    Sound works as_is short
      (("i1", blocker) ∷ [])
      blocker
      "fixing"
      none
      fixing
      (("i1", fixing) ∷ [])
transition_issue-Sound_example =
    transition_issue-Sound works as_is short (("i1", blocker) ∷ []) (("i1", fixing) ∷ []) blocker
      fixing "fixing" none none transitions_run.0
