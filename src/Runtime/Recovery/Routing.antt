-- ===== src/Runtime/Recovery/Routing.antt =====
-- `reconcile_interrupted_routing` and `cleanup_expired_health` of sidecar/ibreeze/runtime/recovery.py.
use i_breeze.Prelude.{
  ℕ, ◌+◌, String, str_eq, Bool, false, not, ◌&&◌, Option, none, some, List, [], ◌∷◌, any, keep_if,
  contains, if◌then◌else◌,
}
use i_breeze.Rows.{update_where, count_where}
use i_breeze.Runtime.Stamp.{Stamp, earlier}

-- The columns of the tables that are read or set here.
pub record RouteAttempt : Type 0 where
  pub id : String
  pub route_decision_id : String
  pub status : String
  pub failure_kind : Option String
  pub completed_at : Option Stamp

pub record RouteDecision : Type 0 where
  pub id : String
  pub status : String
  pub completed_at : Option Stamp

pub record RouteTables : Type 0 where
  pub route_attempts : List RouteAttempt
  pub route_decisions : List RouteDecision

-- The counts that are returned.
pub record Reconciled : Type 0 where
  pub failed_attempts : ℕ
  pub preserved_attempts : ℕ
  pub failed_planned_decisions : ℕ
  pub failed_executing_decisions : ℕ

abbrev pub in_flight : List String
in_flight = "created" ∷ "accepted" ∷ "streaming" ∷ []

abbrev pub is_in_flight : RouteAttempt → Bool
is_in_flight a = contains a.status in_flight

abbrev pub failed_attempt : Stamp → RouteAttempt → RouteAttempt
failed_attempt now a = record a {
  status = "failed";
  failure_kind = some "TRANSPORT_TRANSIENT";
  completed_at = some now;
}

abbrev pub failed_decision : Stamp → RouteDecision → RouteDecision
failed_decision now d = record d { status = "failed"; completed_at = some now }

-- The tests of the UPDATE of an attempt and of a decision that were read.
abbrev pub same_attempt : RouteAttempt → RouteAttempt → Bool
same_attempt row a = str_eq a.id row.id && is_in_flight a

abbrev pub is_executing : RouteDecision → Bool
is_executing d = str_eq d.status "executing"

abbrev pub same_decision : RouteDecision → RouteDecision → Bool
same_decision row d = str_eq d.id row.id && is_executing d

abbrev pub is_planned : RouteDecision → Bool
is_planned d = str_eq d.status "planned"

-- The loop over the attempts that were read: the attempts, and how many were failed and preserved.
unfoldable pub fail_attempts :
    Stamp → List String → List RouteAttempt → List RouteAttempt → List RouteAttempt × (ℕ × ℕ)
fail_attempts now active [] attempts = (attempts, (0, 0))
fail_attempts now active (row ∷ rows) attempts =
    let kept = fail_attempts now active rows attempts in
    let failed =
      fail_attempts now active rows
        (update_where (same_attempt row) (failed_attempt now) attempts) in
    if contains row.id active
    then (kept.0, (kept.1.0, 1 + kept.1.1))
    else (failed.0, (count_where (same_attempt row) attempts + failed.1.0, failed.1.1))

-- A verified attempt of the decision is in flight.
abbrev pub has_active : List String → List RouteAttempt → String → Bool
has_active active attempts decision_id =
    any (λ a. str_eq a.route_decision_id decision_id && (is_in_flight a && contains a.id active))
      attempts

-- The loop over the executing decisions that were read.
unfoldable pub fail_decisions :
    Stamp
    → List String
    → List RouteAttempt
    → List RouteDecision
    → List RouteDecision
    → List RouteDecision × ℕ
fail_decisions now active attempts [] decisions = (decisions, 0)
fail_decisions now active attempts (row ∷ rows) decisions =
    let kept = fail_decisions now active attempts rows decisions in
    let failed =
      fail_decisions now active attempts rows
        (update_where (same_decision row) (failed_decision now) decisions) in
    if has_active active attempts row.id
    then kept
    else (failed.0, count_where (same_decision row) decisions + failed.1)

-- `reconcile_interrupted_routing`; without attempts that the broker verified, `active` is empty.
unfoldable pub reconcile_interrupted_routing :
    Stamp → List String → RouteTables → RouteTables × Reconciled
reconcile_interrupted_routing now active db =
    let attempts =
      fail_attempts now active (keep_if is_in_flight db.route_attempts) db.route_attempts in
    let planned = update_where is_planned (failed_decision now) db.route_decisions in
    let decisions = fail_decisions now active attempts.0 (keep_if is_executing planned) planned in
    (
      record { route_attempts = attempts.0; route_decisions = decisions.0 },
      record {
        failed_attempts = attempts.1.0;
        preserved_attempts = attempts.1.1;
        failed_planned_decisions = count_where is_planned db.route_decisions;
        failed_executing_decisions = decisions.1;
      },
    )

-- The columns of deployment_health that are read here.
pub record DeploymentHealthRow : Type 0 where
  pub availability_state : String
  pub benched_until : Option Stamp

-- The rows that `cleanup_expired_health` deletes.
abbrev pub is_expired_ready : Stamp → DeploymentHealthRow → Bool
is_expired_ready now row =
    str_eq row.availability_state "ready"
    && elim row.benched_until [ none ↦ false | some t ↦ not (earlier now t) ]

unfoldable pub cleanup_expired_health :
    Stamp → List DeploymentHealthRow → List DeploymentHealthRow × ℕ
cleanup_expired_health now rows =
    (keep_if (λ row. not (is_expired_ready now row)) rows, count_where (is_expired_ready now) rows)
