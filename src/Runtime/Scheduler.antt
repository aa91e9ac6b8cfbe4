-- ===== src/Runtime/Scheduler.antt =====
-- sidecar/ibreeze/runtime/scheduler.py over its three tables, with the constraints that
-- persistence/migrations/001_initial.sql puts on them, and the lease cleanup of
-- sidecar/ibreeze/workers/analysis.py. New ids and the present instant are arguments. `datetime` stands
-- for SQLite's function of that name, `references` for the foreign keys to tables of other parts.
pub mod Order
pub mod Fairness
pub mod Leases
pub mod Expiry
mod Tests
use i_breeze.Prelude.{
  ℕ, ◌+◌, leb, ltb, ◌==◌, String, str_eq, Bool, true, false, not, ◌&&◌, ◌||◌, Option, none, some,
  List, [], ◌∷◌, ◌++◌, map, any, keep_if, lookup, put, contains, if◌then◌else◌,
}
use i_breeze.Result.{Result, ok, err}
use i_breeze.Runtime.Stamp.{Stamp, earlier, earlier_null}

pub record QueueRow : Type 0 where
  pub id : String
  pub company_id : String
  pub work_item_type : String
  pub work_item_id : String
  pub job_id : String
  pub run_id : Option String
  pub priority : ℕ
  pub status : String
  pub queued_at : Stamp
  pub leased_at : Option Stamp

pub record LeaseRow : Type 0 where
  pub id : String
  pub queue_id : String
  pub job_id : String
  pub run_id : Option String
  pub employee_id : Option String
  pub company_id : String
  pub conversation_id : Option String
  pub acquired_at : Stamp
  pub heartbeat_at : Stamp
  pub expires_at : Stamp

pub record Tables : Type 0 where
  pub runtime_queue : List QueueRow
  pub runtime_leases : List LeaseRow
  pub fairness : List (String × Stamp)

abbrev pub same_text : Option String → Option String → Bool
same_text (some a) (some b) = str_eq a b
same_text _ _ = false

abbrev pub is_some : Option String → Bool
is_some none = false
is_some (some _) = true

-- `SELECT ... WHERE id=?`
unfoldable pub find_row : String → List QueueRow → Option QueueRow
find_row i [] = none
find_row i (r ∷ rows) = if str_eq r.id i then some r else find_row i rows

-- The last dispatch of the company of a row, by the left join.
unfoldable pub dispatched : Tables → QueueRow → Option Stamp
dispatched db r = lookup r.company_id db.fairness

-- The order of `ORDER BY`, strictly.
unfoldable pub sooner : Tables → QueueRow → QueueRow → Bool
unfolding dispatched
sooner db a b =
    earlier_null (dispatched db a) (dispatched db b)
    || (not (earlier_null (dispatched db b) (dispatched db a))
        && (ltb a.priority b.priority
            || (a.priority == b.priority && earlier a.queued_at b.queued_at)))

unfoldable pub earliest : Tables → QueueRow → List QueueRow → QueueRow
unfolding sooner
earliest db best [] = best
earliest db best (r ∷ rows) = earliest db (if sooner db r best then r else best) rows

unfoldable pub first_of : Tables → List QueueRow → Option QueueRow
unfolding earliest
first_of db [] = none
first_of db (r ∷ rows) = some (earliest db r rows)

abbrev pub is_ready : QueueRow → Bool
is_ready r = str_eq r.status "ready"

-- Rows that tie are taken in the order of the table.
unfoldable pub dequeue_next : Tables → Option QueueRow
unfolding first_of
dequeue_next db = first_of db (keep_if is_ready db.runtime_queue)

-- What the INSERT of `acquire_lease` violates: the primary key, the UNIQUE columns, the CHECK, or a
-- foreign key.
unfoldable pub lease_refused : (LeaseRow → Bool) → LeaseRow → List LeaseRow → Bool
lease_refused references new leases =
    any
      (λ old.
        str_eq old.id new.id
        || (str_eq old.queue_id new.queue_id
            || (str_eq old.job_id new.job_id || same_text old.run_id new.run_id)))
      leases
    || (not (
          (not (is_some new.run_id)
            && (not (is_some new.employee_id) && not (is_some new.conversation_id)))
          || (is_some new.run_id && (is_some new.employee_id && is_some new.conversation_id)))
        || not (references new))

-- `UPDATE runtime_queue SET ... WHERE id=? ...`
unfoldable pub update_rows :
    (QueueRow → Bool) → (QueueRow → QueueRow) → List QueueRow → List QueueRow
update_rows test change [] = []
update_rows test change (r ∷ rows) = (if test r then change r else r) ∷ update_rows test change rows

-- `x or None`
abbrev pub or_none : String → Option String
or_none x = if str_eq x "" then none else some x

module _ (datetime : Stamp → ℕ → Stamp) (references : LeaseRow → Bool) where
  -- The row that `acquire_lease` inserts.
  abbrev pub new_lease :
      String → Stamp → String → String → String → String → String → String → ℕ → LeaseRow
  new_lease lease_id now queue_id job_id run_id employee_id company_id conversation_id ttl_seconds =
      record {
        id = lease_id;
        queue_id = queue_id;
        job_id = job_id;
        run_id = or_none run_id;
        employee_id = or_none employee_id;
        company_id = company_id;
        conversation_id = or_none conversation_id;
        acquired_at = now;
        heartbeat_at = now;
        expires_at = datetime now ttl_seconds;
      }

  -- The update of the queue, and the lease given back if it changed no row; `id` is the primary key, so
  -- it changes one row at most.
  unfoldable pub mark_leased : Tables → LeaseRow → Stamp → Option String × Tables
  mark_leased db lease now =
      let test : QueueRow → Bool = λ r. str_eq r.id lease.queue_id && is_ready r in
      if any test db.runtime_queue
      then (
        some lease.id,
        record db {
          runtime_queue =
              update_rows test (λ r. record r { status = "leased"; leased_at = some now })
                db.runtime_queue;
          runtime_leases = db.runtime_leases ++ (lease ∷ []);
        },
      )
      else (none, db)

  unfoldable pub acquire_lease :
      Tables
      → String
      → Stamp
      → String
      → String
      → String
      → String
      → String
      → String
      → ℕ
      → Option String × Tables
  unfolding mark_leased
  acquire_lease db lease_id now queue_id job_id run_id employee_id company_id conversation_id
        ttl_seconds =
      elim (find_row queue_id db.runtime_queue) [
        | none ↦ (none, db)
        | some queue ↦
            let lease =
              new_lease lease_id now queue_id job_id run_id employee_id company_id conversation_id
                ttl_seconds in
            if not (is_ready queue)
              || (not (str_eq queue.job_id job_id) || not (str_eq queue.company_id company_id))
            then (none, db)
            else if lease_refused references lease db.runtime_leases
            then (none, db)
            else mark_leased db lease now
      ]

-- The leases that `heartbeat_lease` touches, and whether it touched exactly one.
abbrev pub is_live : String → Stamp → LeaseRow → Bool
is_live lease_id now l = str_eq l.id lease_id && earlier now l.expires_at

unfoldable pub touch : String → Stamp → List LeaseRow → List LeaseRow
touch lease_id now [] = []
touch lease_id now (l ∷ leases) =
    (if is_live lease_id now l then record l { heartbeat_at = now } else l)
    ∷ touch lease_id now leases

abbrev pub is_single : List LeaseRow → Bool
is_single (_ ∷ []) = true
is_single _ = false

unfoldable pub heartbeat_lease : Tables → String → Stamp → Bool × Tables
unfolding touch
heartbeat_lease db lease_id now = (
  is_single (keep_if (is_live lease_id now) db.runtime_leases),
  record db { runtime_leases = touch lease_id now db.runtime_leases },
)

unfoldable pub find_lease : String → List LeaseRow → Option LeaseRow
find_lease i [] = none
find_lease i (l ∷ leases) = if str_eq l.id i then some l else find_lease i leases

unfoldable pub delete_lease : String → List LeaseRow → List LeaseRow
delete_lease i leases = keep_if (λ l. not (str_eq l.id i)) leases

unfoldable pub release_lease : Tables → String → Tables
unfolding delete_lease
release_lease db lease_id = record db {
  runtime_queue = elim (find_lease lease_id db.runtime_leases) [
    | none ↦ db.runtime_queue
    | some l ↦
        update_rows (λ r. str_eq r.id l.queue_id) (λ r. record r { status = "completed" })
          db.runtime_queue
  ];
  runtime_leases = delete_lease lease_id db.runtime_leases;
}

unfoldable pub update_fairness : Tables → String → Stamp → Tables
update_fairness db company_id now = record db { fairness = put company_id now db.fairness }

-- `_cleanup` of the AnalysisWorker, less the runs it marks lost: the expired leases are taken one by one.
unfoldable pub reap : List LeaseRow → Tables → Tables
unfolding delete_lease
reap [] db = db
reap (l ∷ expired) db = reap expired record db {
  runtime_queue =
      update_rows (λ r. str_eq r.id l.queue_id && str_eq r.status "leased")
        (λ r. record r { status = "ready" }) db.runtime_queue;
  runtime_leases = delete_lease l.id db.runtime_leases;
}

abbrev pub expired_leases : Tables → Stamp → List LeaseRow
expired_leases db now = keep_if (λ l. earlier l.expires_at now) db.runtime_leases

-- `len(...)`
abbrev pub count : List LeaseRow → ℕ
count [] = 0
count (_ ∷ rest) = 1 + count rest

unfoldable pub cleanup : Tables → Stamp → ℕ × Tables
unfolding reap
cleanup db now = (count (expired_leases db now), reap (expired_leases db now) db)
