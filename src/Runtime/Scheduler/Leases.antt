-- ===== src/Runtime/Scheduler/Leases.antt =====
-- Leases of sidecar/ibreeze/runtime/scheduler.py exclude each other.
use i_breeze.Prelude.{
  ℕ, String, str_eq, Bool, true, false, not, ◌&&◌, ◌||◌, Option, none, some, List, [], ◌∷◌, ◌≡◌,
  subst, refl, arith, any, if◌then◌else◌, Bool-cases, Option-cases, inl, inr,
}
use i_breeze.Runtime.Stamp.{Stamp}
use i_breeze.Runtime.Scheduler.{
  QueueRow, LeaseRow, Tables, find_row, is_ready, update_rows, lease_refused, new_lease,
  mark_leased, acquire_lease,
}

abbrev is_open : String → QueueRow → Bool
is_open queue_id r = str_eq r.id queue_id && is_ready r

abbrev leased : Stamp → QueueRow → QueueRow
leased now r = record r { status = "leased"; leased_at = some now }

-- No row with this id is ready.
abbrev pub NoneReady : String → Tables → Type 0
NoneReady queue_id db = any (is_open queue_id) db.runtime_queue ≡ false

leased_not_open :
    (queue_id : String) (now : Stamp) (r : QueueRow)
    → is_open queue_id (if is_open queue_id r then leased now r else r) ≡ false
leased_not_open queue_id now r = elim (Bool-cases (is_open queue_id r)) [
  | inl e ↦ rw e (ground arith)
  | inr e ↦ rw e e
]

updated_none_ready :
    (queue_id : String) (now : Stamp) (rows : List QueueRow)
    → any (is_open queue_id) (update_rows (is_open queue_id) (leased now) rows) ≡ false
unfolding update_rows
updated_none_ready queue_id now [] = refl
updated_none_ready queue_id now (r ∷ rows) =
    rw (leased_not_open queue_id now r) (updated_none_ready queue_id now rows)

find_row-closed :
    (queue_id : String) (rows : List QueueRow) (r : QueueRow)
    → any (is_open queue_id) rows ≡ false
    → find_row queue_id rows ≡ some r
    → is_ready r ≡ false
unfolding find_row
find_row-closed queue_id [] r h f = ground arith
find_row-closed queue_id (q ∷ rows) r h f = elim (Bool-cases (str_eq q.id queue_id)) [
  | inl e ↦ same (row-injective (rw (e, find_row) at f)) (ground arith)
  | inr e ↦ find_row-closed queue_id rows r (ground arith) (rw (e, find_row) at f)
]
  where
    row-injective : {a b : QueueRow} → some a ≡ some b → a ≡ b
    row-injective h = cc

    same : q ≡ r → is_ready q ≡ false → is_ready r ≡ false
    same e h = rw (← e) h

module _ (datetime : Stamp → ℕ → Stamp) (references : LeaseRow → Bool) where
  -- A claim that is granted leaves the row closed.
  abbrev Closes : String → Option String × Tables → Type 0
  Closes queue_id out = (i : String) → out.0 ≡ some i → NoneReady queue_id out.1

  mark_leased-Closes :
      (db : Tables) (lease : LeaseRow) (now : Stamp)
      → Closes lease.queue_id (mark_leased datetime references db lease now)
  unfolding mark_leased
  mark_leased-Closes db lease now i h =
      elim (Bool-cases (any (is_open lease.queue_id) db.runtime_queue)) [
        | inl e ↦ rw (e, mark_leased) (updated_none_ready lease.queue_id now db.runtime_queue)
        | inr e ↦ rw (e, mark_leased) e
      ]

  acquire_lease-Closes :
      (db : Tables) (lease_id : String) (now : Stamp)
      (queue_id job_id run_id employee_id company_id : String) (conversation_id : String)
      (ttl_seconds : ℕ)
      → Closes queue_id (
          acquire_lease datetime references db lease_id now queue_id job_id run_id employee_id
            company_id conversation_id ttl_seconds)
  unfolding acquire_lease
  acquire_lease-Closes db lease_id now queue_id job_id run_id employee_id company_id conversation_id
        ttl_seconds =
      go (find_row queue_id db.runtime_queue)
    where
      granted :
          (lease : LeaseRow) (e : lease.queue_id ≡ queue_id) (a b : Bool)
          → Closes queue_id (
              if a
              then (none, db)
              else if b
              then (none, db)
              else mark_leased datetime references db lease now)
      granted lease e true b i h = ground arith
      granted lease e false true i h = ground arith
      granted lease e false false i h =
          subst (λ q. NoneReady q (mark_leased datetime references db lease now).1) e
            (mark_leased-Closes db lease now i h)

      go :
          (o : Option QueueRow)
          → Closes queue_id (elim o as (λ _. Option String × Tables) [
            | none ↦ (none, db)
            | some queue ↦
                let lease =
                  new_lease datetime references lease_id now queue_id job_id run_id employee_id
                    company_id conversation_id ttl_seconds in
                if not (is_ready queue)
                  || (not (str_eq queue.job_id job_id) || not (str_eq queue.company_id company_id))
                then (none, db)
                else if lease_refused references lease db.runtime_leases
                then (none, db)
                else mark_leased datetime references db lease now
          ])
      go none i h = ground arith
      go (some queue) i h = granted _ refl _ _ i h

  not_ready_refused :
      (db : Tables) (lease_id : String) (now : Stamp)
      (queue_id job_id run_id employee_id company_id : String) (conversation_id : String)
      (ttl_seconds : ℕ)
      → NoneReady queue_id db
      → acquire_lease datetime references db lease_id now queue_id job_id run_id employee_id
          company_id conversation_id ttl_seconds
        ≡ (none, db)
  unfolding acquire_lease
  not_ready_refused db lease_id now queue_id job_id run_id employee_id company_id conversation_id
        ttl_seconds n =
      elim (Option-cases (find_row queue_id db.runtime_queue)) [
        | inl e ↦ rw (e, acquire_lease) refl
        | inr (r, e) ↦
            rw (e, acquire_lease) (rw (find_row-closed queue_id db.runtime_queue r n e) refl)
      ]

  -- A lease that was granted excludes every other claim of the same queue entry: the next one is
  -- refused and changes nothing, whoever makes it and whatever it names.
  pub acquire_lease-exclusive :
      (db db' : Tables) (lease_id other_id i : String) (now later : Stamp) (queue_id : String)
      (job_id run_id employee_id company_id conversation_id : String)
      (job_id' run_id' employee_id' company_id' conversation_id' : String)
      (ttl_seconds ttl_seconds' : ℕ)
      → acquire_lease datetime references db lease_id now queue_id job_id run_id employee_id
          company_id conversation_id ttl_seconds
        ≡ (some i, db')
      → acquire_lease datetime references db' other_id later queue_id job_id' run_id' employee_id'
          company_id' conversation_id' ttl_seconds'
        ≡ (none, db')
  acquire_lease-exclusive db db' lease_id other_id i now later queue_id job_id run_id employee_id
        company_id conversation_id job_id' run_id' employee_id' company_id' conversation_id'
        ttl_seconds ttl_seconds' h =
      not_ready_refused db' other_id later queue_id job_id' run_id' employee_id' company_id'
        conversation_id' ttl_seconds'
        (subst (λ out. Closes queue_id out) h
          (acquire_lease-Closes db lease_id now queue_id job_id run_id employee_id company_id
            conversation_id ttl_seconds)
          i refl)
