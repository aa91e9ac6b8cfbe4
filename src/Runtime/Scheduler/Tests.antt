-- ===== src/Runtime/Scheduler/Tests.antt =====
-- Runs of sidecar/ibreeze/runtime/scheduler.py, and instances of its theorems.
use i_breeze.Prelude.{
  ℕ, ◌+◌, ◌≡◌, ◌≢◌, refl, true, Bool, [], ◌∷◌, none, some, String, lookup, Memᴰ, if◌then◌else◌, ltb,
  leb, str_eq, eq_iff, Bool-cases, inl, inr, arith,
}
use i_breeze.Runtime.Stamp.{Stamp, letter_t, blank, earlier, earlier_null}
use i_breeze.Runtime.Scheduler.{
  QueueRow, LeaseRow, Tables, dispatched, sooner, earliest, first_of, find_row, update_rows,
  lease_refused, new_lease, mark_leased, dequeue_next, update_fairness, acquire_lease,
  heartbeat_lease, cleanup,
}
use i_breeze.Runtime.Scheduler.Order.{Next, dequeue_next-Next}
use i_breeze.Runtime.Scheduler.Fairness.{AllBefore, dequeue_next-fair}
use i_breeze.Runtime.Scheduler.Leases.{acquire_lease-exclusive}
use i_breeze.Runtime.Scheduler.Expiry.{lease-live_by_day}

abbrev noon : Stamp
noon = record { day = 20; separator = letter_t; clock = 43200 }

abbrev one_pm : Stamp
one_pm = record { day = 20; separator = letter_t; clock = 46800 }

abbrev queued : String → String → String → QueueRow
queued i company job = record {
  id = i;
  company_id = company;
  work_item_type = "review";
  work_item_id = i;
  job_id = job;
  run_id = some job;
  priority = 10;
  status = "ready";
  queued_at = noon;
  leased_at = none;
}

abbrev office : Tables
office = record {
  runtime_queue = queued "q1" "acme" "j1" ∷ queued "q2" "bolt" "j2" ∷ [];
  runtime_leases = [];
  fairness = ("acme", noon) ∷ [];
}

dequeue_run : dequeue_next office ≡ some (queued "q2" "bolt" "j2")
unfolding dequeue_next first_of earliest sooner dispatched earlier_null earlier lookup
dequeue_run = refl

dequeue_next-Next_example : Next office (dequeue_next office)
dequeue_next-Next_example = dequeue_next-Next office

office_before : AllBefore office one_pm
unfolding lookup earlier
office_before company s h = elim (Bool-cases (str_eq "acme" company)) [
  | inl e ↦ noon_first (rw e at h)
  | inr e ↦ let x : none ≡ some s = rw e at h in ground arith
]
  where
    noon_first : some noon ≡ some s → earlier s one_pm ≡ true
    noon_first q = let e : noon ≡ s = cc in rw (← e) refl

dequeue_next-fair_example :
    (x : QueueRow) × (dequeue_next (update_fairness office "bolt" one_pm) ≡ some x)
    × Memᴰ x office.runtime_queue
    × (x.company_id ≢ "bolt")
dequeue_next-fair_example =
    dequeue_next-fair office "bolt" one_pm (queued "q1" "acme" "j1") office_before (Memᴰ.head refl)
      refl (λ e. let x = (eq_iff "acme" "bolt").1 e in ground arith)

-- Five minutes at most: the same day, and whole seconds.
abbrev sqlite_datetime : Stamp → ℕ → Stamp
sqlite_datetime t n = record { day = t.day; separator = blank; clock = t.clock + n }

abbrev any_reference : LeaseRow → Bool
any_reference l = true

abbrev lease_one : LeaseRow
lease_one = new_lease sqlite_datetime any_reference "l1" noon "q1" "j1" "j1" "e1" "acme" "c1" 300

abbrev leased_office : Tables
leased_office = record office {
  runtime_queue =
      (record (queued "q1" "acme" "j1") { status = "leased"; leased_at = some noon })
      ∷ queued "q2" "bolt" "j2"
      ∷ [];
  runtime_leases = lease_one ∷ [];
}

acquire_run :
    acquire_lease sqlite_datetime any_reference office "l1" noon "q1" "j1" "j1" "e1" "acme" "c1" 300
    ≡ (some "l1", leased_office)
unfolding acquire_lease mark_leased find_row update_rows lease_refused
acquire_run = refl

acquire_lease-exclusive_example :
    acquire_lease sqlite_datetime any_reference leased_office "l2" one_pm "q1" "j1" "j1" "e2" "acme"
      "c2" 60
    ≡ (none, leased_office)
acquire_lease-exclusive_example =
    acquire_lease-exclusive sqlite_datetime any_reference office leased_office "l1" "l2" "l1" noon
      one_pm "q1" "j1" "j1" "e1" "acme" "c1" "j1" "j1" "e2" "acme" "c2" 300 60 acquire_run

lease-live_by_day_example :
    ((heartbeat_lease leased_office "l1" noon).0 ≡ ltb 20 20)
    × ((cleanup leased_office noon).0 ≡ (if leb 20 20 then 1 else 0))
lease-live_by_day_example =
    lease-live_by_day sqlite_datetime any_reference leased_office "l1" "q1" "j1" "j1" "e1" "acme"
      "c1" 300 noon noon (λ t n. refl) refl refl
