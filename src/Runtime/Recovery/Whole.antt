-- ===== src/Runtime/Recovery/Whole.antt =====
-- What `recover_stale_runs` in sidecar/ibreeze/runtime/recovery.py makes of the tables.
use i_breeze.Prelude.{
  Bool, false, not, ◌&&◌, ◌||◌, ◌≡◌, refl, sym, ap, ◌∙◌, List, [], ◌∷◌, ◌++◌, map, any, keep_if,
  contains, length, keep_if-kept, keep_if-left, if◌then◌else◌, Bool-cases, inl, inr, arith,
}
use mathlib.Core.List.{append_assoc}
use i_breeze.Runtime.Stamp.{Stamp}
use i_breeze.Runtime.Scheduler.{QueueRow}
use i_breeze.Runtime.Recovery.{
  AgentRunRow, RunTables, is_stale, is_waiting_row, cancelled_row, owns_lease, run_failed,
  release_run, recover_each, recover_stale_runs,
}
use mathlib.Core.List.{append-nil}
use i_breeze.Rows.{map_same, map-update_where, keep_if_twice, keep_if_all}
use i_breeze.Runtime.Recovery.Runs.{HasKey, recovered, release_each, recover_each-rows}

-- The tables after a recovery: each stale run is failed, each row of the queue that was ready or leased
-- for one is cancelled, its leases are gone, and if its company exists its failure is recorded.
abbrev pub recovered_tables : Stamp → RunTables → RunTables
recovered_tables now db =
    let stale = keep_if is_stale db.agent_runs in
    record db {
      agent_runs = map (recovered now) db.agent_runs;
      runtime_queue =
          map (λ row. if any (λ run. is_waiting_row run row) stale then cancelled_row row else row)
            db.runtime_queue;
      runtime_leases =
          keep_if (λ lease. not (any (λ run. owns_lease run lease) stale)) db.runtime_leases;
      events =
          db.events ++ map run_failed (keep_if (λ run. contains run.company_id db.companies) stale);
    }

abbrev cancelled_by : List AgentRunRow → QueueRow → QueueRow
cancelled_by stale row =
    if any (λ run. is_waiting_row run row) stale then cancelled_row row else row

release_each-queue :
    (stale : List AgentRunRow) (db : RunTables)
    → (release_each stale db).runtime_queue
      ≡ map
          (λ row. if any (λ run. is_waiting_row run row) stale then cancelled_row row else row)
          db.runtime_queue
unfolding release_each
release_each-queue [] db = map_same _ db.runtime_queue (λ row. refl)
release_each-queue (r ∷ rs) db =
    release_each-queue rs (release_run r db)
    ∙ map-update_where _ _ (is_waiting_row r) cancelled_row db.runtime_queue twice
  where
    twice :
        (row : QueueRow)
        → cancelled_by rs (if is_waiting_row r row then cancelled_row row else row)
          ≡ cancelled_by (r ∷ rs) row
    twice row = elim (Bool-cases (is_waiting_row r row)) [
      | inl e ↦ rw e (elim (Bool-cases (any (λ run. is_waiting_row run (cancelled_row row)) rs)) [
        | inl a ↦ rw a refl
        | inr a ↦ rw a refl
      ])
      | inr e ↦ rw e refl
    ]

release_each-leases :
    (stale : List AgentRunRow) (db : RunTables)
    → (release_each stale db).runtime_leases
      ≡ keep_if (λ lease. not (any (λ run. owns_lease run lease) stale)) db.runtime_leases
unfolding release_each
release_each-leases [] db = sym (keep_if_all _ db.runtime_leases (λ lease. refl))
release_each-leases (r ∷ rs) db =
    release_each-leases rs (release_run r db)
    ∙ keep_if_twice _ _ _ db.runtime_leases
        (λ lease. either (owns_lease r lease) (any (λ run. owns_lease run lease) rs))
  where
    either : (a b : Bool) → not (a || b) ≡ (not a && not b)
    either a b = ground arith

release_each-companies :
    (stale : List AgentRunRow) (db : RunTables) → (release_each stale db).companies ≡ db.companies
unfolding release_each
release_each-companies [] db = refl
release_each-companies (r ∷ rs) db = release_each-companies rs (release_run r db)

release_each-events :
    (stale : List AgentRunRow) (db : RunTables)
    → (release_each stale db).events
      ≡ db.events ++ map run_failed (keep_if (λ run. contains run.company_id db.companies) stale)
unfolding release_each
release_each-events [] db = sym (append-nil db.events)
release_each-events (r ∷ rs) db =
    release_each-events rs (release_run r db)
    ∙ elim (Bool-cases (contains r.company_id db.companies)) [
      | inl e ↦
          rw (keep_if-kept (λ run. contains run.company_id db.companies) r rs e, e)
            (append_assoc db.events (run_failed r ∷ []) _)
      | inr e ↦ rw (keep_if-left (λ run. contains run.company_id db.companies) r rs e, e) refl
    ]

pub recover_stale_runs-tables :
    (now : Stamp) (db : RunTables)
    → HasKey db.agent_runs
    → recover_stale_runs now db ≡ (
      recovered_tables now db,
      (length (keep_if is_stale db.agent_runs), length (keep_if is_stale db.agent_runs)),
    )
unfolding recover_stale_runs
recover_stale_runs-tables now db k =
    let stale = keep_if is_stale db.agent_runs in
    ap (λ d. (d.0, (d.1, length stale)))
      (recover_each-rows now [] db.agent_runs db k (λ y i x j. elim j [ ]))
    ∙ rw
        (
          release_each-queue stale db,
          release_each-leases stale db,
          release_each-companies stale db,
          release_each-events stale db,
        )
        refl

failed-unstale : (now : Stamp) (row : AgentRunRow) → is_stale (recovered now row) ≡ false
failed-unstale now row = elim (Bool-cases (is_stale row)) [ inl e ↦ rw e refl | inr e ↦ rw e e ]

none_stale :
    (now : Stamp) (rows : List AgentRunRow) → keep_if is_stale (map (recovered now) rows) ≡ []
none_stale now [] = refl
none_stale now (r ∷ rows) =
    keep_if-left is_stale (recovered now r) (map (recovered now) rows) (failed-unstale now r)
    ∙ none_stale now rows

no_stale :
    (later : Stamp) (db : RunTables)
    → keep_if is_stale db.agent_runs ≡ []
    → recover_stale_runs later db ≡ (db, (0, 0))
unfolding recover_stale_runs recover_each
no_stale later db n = rw n refl

-- A recovery leaves no stale run, and one that is run again, at any later time, changes nothing and
-- recovers and checks no run. The ids of the runs are distinct.
pub recover_stale_runs_again :
    (now later : Stamp) (db : RunTables)
    → HasKey db.agent_runs
    → (keep_if is_stale (recover_stale_runs now db).0.agent_runs ≡ [])
      × (recover_stale_runs later (recover_stale_runs now db).0
          ≡ ((recover_stale_runs now db).0, (0, 0)))
recover_stale_runs_again now later db k =
    let e = ap (λ d. d.0) (recover_stale_runs-tables now db k) in
    let n : keep_if is_stale (recover_stale_runs now db).0.agent_runs ≡ [] =
      ap (λ d. keep_if is_stale d.agent_runs) e ∙ none_stale now db.agent_runs in
    (n, no_stale later (recover_stale_runs now db).0 n)
