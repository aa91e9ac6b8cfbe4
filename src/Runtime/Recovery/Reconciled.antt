-- ===== src/Runtime/Recovery/Reconciled.antt =====
-- What `reconcile_interrupted_routing` of sidecar/ibreeze/runtime/recovery.py leaves.
use i_breeze.Prelude.{
  String, Bool, not, ◌&&◌, ◌||◌, ◌≡◌, refl, ap, ◌∙◌, List, [], ◌∷◌, map, keep_if, contains,
  if◌then◌else◌, Bool-cases, inl, inr,
}
use i_breeze.Rows.{update_where, map-update_where}
use i_breeze.Rows.Snapshot.{update_each, update_each-snapshot}
use i_breeze.Runtime.Stamp.{Stamp}
use i_breeze.Runtime.Recovery.Routing.{
  RouteAttempt, RouteDecision, RouteTables, is_in_flight, failed_attempt, same_attempt,
  same_decision, is_executing, is_planned, failed_decision, fail_attempts, has_active,
  fail_decisions, reconcile_interrupted_routing,
}

-- An attempt in flight is failed unless it was verified.
abbrev pub reconciled_attempt : Stamp → List String → RouteAttempt → RouteAttempt
reconciled_attempt now active a =
    if is_in_flight a && not (contains a.id active) then failed_attempt now a else a

-- A planned decision is failed, and an executing one unless a verified attempt of it is in flight.
abbrev pub reconciled_decision :
    Stamp → List String → List RouteAttempt → RouteDecision → RouteDecision
reconciled_decision now active attempts d =
    if is_planned d || (is_executing d && not (has_active active attempts d.id))
    then failed_decision now d
    else d

fail_attempts-each :
    (now : Stamp) (active : List String) (rows attempts : List RouteAttempt)
    → (fail_attempts now active rows attempts).0
      ≡ update_each RouteAttempt.id
          (λ k. contains k active)
          is_in_flight
          (failed_attempt now)
          rows
          attempts
unfolding fail_attempts update_each
fail_attempts-each now active [] attempts = refl
fail_attempts-each now active (row ∷ rows) attempts = elim (Bool-cases (contains row.id active)) [
  | inl e ↦ rw e (fail_attempts-each now active rows attempts)
  | inr e ↦ rw e (
      fail_attempts-each now active rows
        (update_where (same_attempt row) (failed_attempt now) attempts))
]

fail_decisions-each :
    (now : Stamp) (active : List String) (attempts : List RouteAttempt)
    (rows decisions : List RouteDecision)
    → (fail_decisions now active attempts rows decisions).0
      ≡ update_each RouteDecision.id
          (has_active active attempts)
          is_executing
          (failed_decision now)
          rows
          decisions
unfolding fail_decisions update_each
fail_decisions-each now active attempts [] decisions = refl
fail_decisions-each now active attempts (row ∷ rows) decisions =
    elim (Bool-cases (has_active active attempts row.id)) [
      | inl e ↦ rw e (fail_decisions-each now active attempts rows decisions)
      | inr e ↦ rw e (
          fail_decisions-each now active attempts rows
            (update_where (same_decision row) (failed_decision now) decisions))
    ]

decided :
    (now : Stamp) (kept : String → Bool) (d : RouteDecision)
    → (if is_executing (if is_planned d then failed_decision now d else d)
          && not (kept (if is_planned d then failed_decision now d else d).id)
        then failed_decision now (if is_planned d then failed_decision now d else d)
        else if is_planned d
        then failed_decision now d
        else d)
      ≡ (if is_planned d || (is_executing d && not (kept d.id)) then failed_decision now d else d)
decided now kept d = elim (Bool-cases (is_planned d)) [ inl e ↦ rw e refl | inr e ↦ rw e refl ]

-- After a restart every attempt in flight that the broker has not verified is failed, every planned
-- decision is failed, and so is an executing one unless a verified attempt of it is in flight then; every
-- other attempt and decision is as it was.
pub reconcile_interrupted_routing-tables :
    (now : Stamp) (active : List String) (db : RouteTables)
    → ((reconcile_interrupted_routing now active db).0.route_attempts
        ≡ map (reconciled_attempt now active) db.route_attempts)
      × ((reconcile_interrupted_routing now active db).0.route_decisions
          ≡ map
              (reconciled_decision now active
                (map (reconciled_attempt now active) db.route_attempts))
              db.route_decisions)
unfolding reconcile_interrupted_routing
reconcile_interrupted_routing-tables now active db = (attempts, decisions)
  where
    attempts :
        (fail_attempts now active (keep_if is_in_flight db.route_attempts) db.route_attempts).0
        ≡ map (reconciled_attempt now active) db.route_attempts
    attempts =
        fail_attempts-each now active (keep_if is_in_flight db.route_attempts) db.route_attempts
        ∙ update_each-snapshot RouteAttempt.id (λ k. contains k active) is_in_flight
            (failed_attempt now) db.route_attempts (λ a. refl)

    planned : List RouteDecision
    planned = update_where is_planned (failed_decision now) db.route_decisions

    decisions :
        (fail_decisions now active
          (fail_attempts now active (keep_if is_in_flight db.route_attempts) db.route_attempts).0
          (keep_if is_executing planned)
          planned).0
        ≡ map
            (reconciled_decision now active (map (reconciled_attempt now active) db.route_attempts))
            db.route_decisions
    decisions =
        ap (λ a. (fail_decisions now active a (keep_if is_executing planned) planned).0) attempts
        ∙ fail_decisions-each now active (map (reconciled_attempt now active) db.route_attempts)
            (keep_if is_executing planned) planned
        ∙ update_each-snapshot RouteDecision.id
            (has_active active (map (reconciled_attempt now active) db.route_attempts)) is_executing
            (failed_decision now) planned (λ d. refl)
        ∙ map-update_where _ _ is_planned (failed_decision now) db.route_decisions (
            decided now (has_active active (map (reconciled_attempt now active) db.route_attempts)))
