-- ===== src/Runtime/Recovery.antt =====
-- sidecar/ibreeze/runtime/recovery.py over the tables that it changes. `events` has what is passed to
-- `_write_event` of the run executor, in order; `now` is what `_now` returns.
pub mod Runs
pub mod Whole
pub mod Routing
pub mod Reconciled
mod Tests
use Prim.Native.String.{◌++◌ as str_append}
use i_breeze.Prelude.{
  ℕ, zero, suc, ◌+◌, ◌==◌, String, str_eq, Bool, true, false, not, ◌&&◌, ◌||◌, Option, none, some,
  List, [], ◌∷◌, ◌++◌, map, any, keep_if, contains, length, if◌then◌else◌,
}
use i_breeze.Rows.{update_where, count_where}
use i_breeze.Runtime.Stamp.{Stamp, earlier}
use i_breeze.Runtime.Scheduler.{QueueRow, LeaseRow, same_text}

-- _STALE_STATUSES
abbrev pub stale_statuses : List String
stale_statuses = "queued" ∷ "probing" ∷ "starting" ∷ "running" ∷ "verifying" ∷ "retrying" ∷ []

-- The columns of agent_runs that are read or set here.
pub record AgentRunRow : Type 0 where
  pub id : String
  pub company_id : String
  pub status : String
  pub failure_code : Option String
  pub completed_at : Option Stamp
  pub process_pid : Option ℕ
  pub process_group_id : Option ℕ
  pub process_started_at : Option Stamp
  pub updated_at : Stamp
  pub version : ℕ

-- The payload of a run.failed event.
pub record RunFailed : Type 0 where
  pub company_id : String
  pub aggregate_id : String
  pub version : ℕ
  pub from_state : String
  pub failure_code : String

pub record RunTables : Type 0 where
  pub agent_runs : List AgentRunRow
  pub runtime_queue : List QueueRow
  pub runtime_leases : List LeaseRow
  pub companies : List String
  pub events : List RunFailed

abbrev pub is_stale : AgentRunRow → Bool
is_stale run = contains run.status stale_statuses

abbrev pub failure_of : String → String
failure_of status = str_append "Crash recovery: run was '" (str_append status "' at crash time")

-- The test and the assignments of the UPDATE of agent_runs for a run that was read.
abbrev pub same_run : AgentRunRow → AgentRunRow → Bool
same_run run row =
    str_eq row.id run.id
    && (str_eq row.company_id run.company_id
        && (str_eq row.status run.status && row.version == run.version))

abbrev pub failed_row : Stamp → String → AgentRunRow → AgentRunRow
failed_row now status row = record row {
  status = "failed";
  failure_code = some (failure_of status);
  completed_at = some now;
  process_pid = none;
  process_group_id = none;
  process_started_at = none;
  updated_at = now;
  version = row.version + 1;
}

-- The rows of the queue and the leases of a run.
abbrev pub is_waiting_row : AgentRunRow → QueueRow → Bool
is_waiting_row run row =
    same_text row.run_id (some run.id)
    && (str_eq row.company_id run.company_id
        && (str_eq row.status "ready" || str_eq row.status "leased"))

abbrev pub cancelled_row : QueueRow → QueueRow
cancelled_row row = record row { status = "cancelled" }

abbrev pub owns_lease : AgentRunRow → LeaseRow → Bool
owns_lease run lease =
    same_text lease.run_id (some run.id) && str_eq lease.company_id run.company_id

abbrev pub run_failed : AgentRunRow → RunFailed
run_failed run = record {
  company_id = run.company_id;
  aggregate_id = run.id;
  version = run.version + 1;
  from_state = run.status;
  failure_code = failure_of run.status;
}

-- What follows the UPDATE that failed a run.
abbrev pub release_run : AgentRunRow → RunTables → RunTables
release_run run db = record db {
  runtime_queue = update_where (is_waiting_row run) cancelled_row db.runtime_queue;
  runtime_leases = keep_if (λ lease. not (owns_lease run lease)) db.runtime_leases;
  events =
      if contains run.company_id db.companies
      then db.events ++ (run_failed run ∷ [])
      else db.events;
}

-- One turn of the loop: the tables, and whether the run was recovered.
unfoldable pub recover_run : Stamp → AgentRunRow → RunTables → RunTables × ℕ
recover_run now run db =
    let after = record db {
      agent_runs = update_where (same_run run) (failed_row now run.status) db.agent_runs;
    } in
    if not (count_where (same_run run) db.agent_runs == 1)
    then (after, 0)
    else (release_run run after, 1)

unfoldable pub recover_each : Stamp → List AgentRunRow → RunTables → RunTables × ℕ
recover_each now [] db = (db, 0)
recover_each now (run ∷ runs) db =
    let one = recover_run now run db in
    let rest = recover_each now runs one.0 in (rest.0, one.1 + rest.1)

-- `recover_stale_runs`: the tables, `recovered` and `checked`
unfoldable pub recover_stale_runs : Stamp → RunTables → RunTables × (ℕ × ℕ)
recover_stale_runs now db =
    let stale_runs = keep_if is_stale db.agent_runs in
    let done = recover_each now stale_runs db in (done.0, (done.1, length stale_runs))
