-- ===== src/Runtime/Recovery/Tests.antt =====
-- Runs of sidecar/ibreeze/runtime/recovery.py, and instances of its theorems.
use i_breeze.Prelude.{
  ℕ, lookup, String, str_eq, false, ◌≡◌, refl, none, some, [], ◌∷◌, map, keep_if, length, Memᴰ,
}
use i_breeze.Result.{ok}
use i_breeze.Rows.{update_where, count_where}
use i_breeze.Runtime.Stamp.{Stamp, earlier}
use i_breeze.Runtime.Scheduler.{QueueRow}
use i_breeze.Runtime.Recovery.{
  AgentRunRow, RunTables, is_stale, recover_run, recover_each, recover_stale_runs,
}
use i_breeze.Runtime.Recovery.Runs.{HasKey}
use i_breeze.Runtime.Recovery.Whole.{recover_stale_runs_again}
use i_breeze.Runtime.Recovery.Routing.{
  RouteAttempt, RouteDecision, RouteTables, cleanup_expired_health, fail_attempts, fail_decisions,
  reconcile_interrupted_routing,
}
use i_breeze.Runtime.Recovery.Reconciled.{
  reconciled_attempt, reconciled_decision, reconcile_interrupted_routing-tables,
}
use i_breeze.StateMachine.Registry.{is_waiting, can_transition, targets_of, transition_tables}
use i_breeze.StateMachine.AgentRun.{agent_run_states, agent_run_value, agent_run_transitions}

abbrev at : ℕ → Stamp
at n = record { day = n; separator = 84; clock = 0 }

abbrev run : String → String → AgentRunRow
run id status = record {
  id = id;
  company_id = "c";
  status = status;
  failure_code = none;
  completed_at = none;
  process_pid = some 7;
  process_group_id = some 7;
  process_started_at = some (at 1);
  updated_at = at 1;
  version = 3;
}

abbrev waits : QueueRow
waits = record {
  id = "q";
  company_id = "c";
  work_item_type = "task";
  work_item_id = "w";
  job_id = "j";
  run_id = some "b";
  priority = 1;
  status = "leased";
  queued_at = at 1;
  leased_at = some (at 1);
}

-- Of three runs one was running when the process ended.
abbrev crashed : RunTables
crashed = record {
  agent_runs = run "a" "succeeded" ∷ run "b" "running" ∷ run "d" "waiting_approval" ∷ [];
  runtime_queue = waits ∷ [];
  runtime_leases = [];
  companies = "c" ∷ [];
  events = [];
}

crashed_run :
    ((recover_stale_runs (at 2) crashed).1 ≡ (1, 1))
    × (map QueueRow.status (recover_stale_runs (at 2) crashed).0.runtime_queue ≡ "cancelled" ∷ [])
    × (map AgentRunRow.status (recover_stale_runs (at 2) crashed).0.agent_runs
        ≡ "succeeded" ∷ "failed" ∷ "waiting_approval" ∷ [])
    × (length (recover_stale_runs (at 2) crashed).0.events ≡ 1)
unfolding recover_stale_runs recover_each recover_run update_where count_where
crashed_run = (refl, refl, refl, refl)

has_key : HasKey crashed.agent_runs
has_key = (apart, (last, ((λ x i. elim i [ ]), tt)))
  where
    last : (x : AgentRunRow) → Memᴰ x (run "d" "waiting_approval" ∷ []) → str_eq x.id "b" ≡ false
    last x (Memᴰ.head q) = rw q refl
    last x (Memᴰ.tail i) = elim i [ ]

    apart :
        (x : AgentRunRow)
        → Memᴰ x (run "b" "running" ∷ run "d" "waiting_approval" ∷ [])
        → str_eq x.id "a" ≡ false
    apart x (Memᴰ.head q) = rw q refl
    apart x (Memᴰ.tail (Memᴰ.head q)) = rw q refl
    apart x (Memᴰ.tail (Memᴰ.tail i)) = elim i [ ]

recover_stale_runs_again_example :
    (keep_if is_stale (recover_stale_runs (at 2) crashed).0.agent_runs ≡ [])
    × (recover_stale_runs (at 3) (recover_stale_runs (at 2) crashed).0
        ≡ ((recover_stale_runs (at 2) crashed).0, (0, 0)))
recover_stale_runs_again_example = recover_stale_runs_again (at 2) (at 3) crashed has_key

-- The table of AgentRun has no edge by which the recovery of a queued run could go.
queued_failed_run : can_transition "AgentRun" "queued" "failed" none ≡ ok false
unfolding can_transition targets_of transition_tables lookup is_waiting agent_run_states
    agent_run_value agent_run_transitions
queued_failed_run = refl

-- One of two attempts was verified by the broker.
abbrev attempt : String → String → RouteAttempt
attempt id decision = record {
  id = id;
  route_decision_id = decision;
  status = "streaming";
  failure_kind = none;
  completed_at = none;
}

abbrev decision : String → String → RouteDecision
decision id status = record { id = id; status = status; completed_at = none }

abbrev interrupted : RouteTables
interrupted = record {
  route_attempts = attempt "a1" "d1" ∷ attempt "a2" "d2" ∷ [];
  route_decisions =
      decision "d1" "executing" ∷ decision "d2" "executing" ∷ decision "d3" "planned" ∷ [];
}

interrupted_run :
    (map RouteAttempt.status
        (reconcile_interrupted_routing (at 2) ("a1" ∷ []) interrupted).0.route_attempts
      ≡ "streaming" ∷ "failed" ∷ [])
    × (map RouteDecision.status
          (reconcile_interrupted_routing (at 2) ("a1" ∷ []) interrupted).0.route_decisions
        ≡ "executing" ∷ "failed" ∷ "failed" ∷ [])
    × ((reconcile_interrupted_routing (at 2) ("a1" ∷ []) interrupted).1 ≡ record {
      failed_attempts = 1;
      preserved_attempts = 1;
      failed_planned_decisions = 1;
      failed_executing_decisions = 1;
    })
unfolding reconcile_interrupted_routing fail_attempts fail_decisions update_where count_where
interrupted_run = (refl, refl, refl)

reconcile_interrupted_routing-tables_example :
    ((reconcile_interrupted_routing (at 2) ("a1" ∷ []) interrupted).0.route_attempts
      ≡ map (reconciled_attempt (at 2) ("a1" ∷ [])) interrupted.route_attempts)
    × ((reconcile_interrupted_routing (at 2) ("a1" ∷ []) interrupted).0.route_decisions
        ≡ map
            (reconciled_decision
              (at 2)
              ("a1" ∷ [])
              (map (reconciled_attempt (at 2) ("a1" ∷ [])) interrupted.route_attempts))
            interrupted.route_decisions)
reconcile_interrupted_routing-tables_example =
    reconcile_interrupted_routing-tables (at 2) ("a1" ∷ []) interrupted

-- A bench that is over is deleted, one without an end is kept.
cleanup_expired_health_run :
    cleanup_expired_health (at 2) (
      record { availability_state = "ready"; benched_until = some (at 2) }
      ∷ record { availability_state = "ready"; benched_until = none }
      ∷ [])
    ≡ (record { availability_state = "ready"; benched_until = none } ∷ [], 1)
unfolding cleanup_expired_health count_where earlier
cleanup_expired_health_run = refl
