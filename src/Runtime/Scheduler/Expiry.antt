-- ===== src/Runtime/Scheduler/Expiry.antt =====
-- The life of a lease in sidecar/ibreeze/runtime/scheduler.py and sidecar/ibreeze/workers/analysis.py,
-- which write `expires_at` by SQLite's `datetime` and compare it with the text of `_now`.
use i_breeze.Prelude.{
  ℕ, ltb, leb, String, eq_iff, Bool, [], ◌∷◌, ◌≡◌, refl, ◌∙◌, Bool-cases, inl, inr, arith, keep_if,
  if◌then◌else◌,
}
use i_breeze.Runtime.Stamp.{Stamp, letter_t, blank, earlier}
use i_breeze.Runtime.Scheduler.{
  LeaseRow, Tables, is_live, is_single, new_lease, heartbeat_lease, cleanup, count,
}

before_day :
    (a b : Stamp) → a.separator ≡ letter_t → b.separator ≡ blank → earlier a b ≡ ltb a.day b.day
unfolding earlier
before_day a b p q = ground arith

from_day :
    (a b : Stamp) → a.separator ≡ blank → b.separator ≡ letter_t → earlier a b ≡ leb a.day b.day
unfolding earlier
from_day a b p q = ground arith

single_if : (p : LeaseRow → Bool) (l : LeaseRow) → is_single (keep_if p (l ∷ [])) ≡ p l
single_if p l = elim (Bool-cases (p l)) [
  | inl e ↦ rw (e, keep_if) refl
  | inr e ↦ rw (e, keep_if) refl
]

count_if :
    (p : LeaseRow → Bool) (l : LeaseRow) → count (keep_if p (l ∷ [])) ≡ (if p l then 1 else 0)
count_if p l = elim (Bool-cases (p l)) [
  | inl e ↦ rw (e, keep_if) refl
  | inr e ↦ rw (e, keep_if) refl
]

module _ (datetime : Stamp → ℕ → Stamp) (references : LeaseRow → Bool) where
  -- The only lease, as `acquire_lease` writes it, is kept alive by a heartbeat just before the day on
  -- which it ends, and the cleanup takes it from the start of that day on: the clock is not read. This
  -- holds for each `datetime` that writes a blank after the day, as SQLite documents, and each present
  -- instant that is written with a T there.
  pub lease-live_by_day :
      (db : Tables)
      (lease_id queue_id job_id run_id employee_id company_id conversation_id : String)
      (ttl_seconds : ℕ) (acquired now : Stamp)
      → ((t : Stamp) (n : ℕ) → (datetime t n).separator ≡ blank)
      → now.separator ≡ letter_t
      → db.runtime_leases
        ≡ new_lease datetime references lease_id acquired queue_id job_id run_id employee_id
            company_id conversation_id ttl_seconds
          ∷ []
      → ((heartbeat_lease db lease_id now).0 ≡ ltb now.day (datetime acquired ttl_seconds).day)
        × ((cleanup db now).0 ≡ (if leb (datetime acquired ttl_seconds).day now.day then 1 else 0))
  unfolding heartbeat_lease cleanup
  lease-live_by_day db lease_id queue_id job_id run_id employee_id company_id conversation_id
        ttl_seconds acquired now b t only =
      let ends = datetime acquired ttl_seconds in
      let lease =
        new_lease datetime references lease_id acquired queue_id job_id run_id employee_id
          company_id conversation_id ttl_seconds in
      rw only (
        single_if (is_live lease_id now) lease
            ∙ rw ((eq_iff lease_id lease_id).1 refl)
                (before_day now ends t (b acquired ttl_seconds)),
        count_if (λ l. earlier l.expires_at now) lease
            ∙ rw (from_day ends now (b acquired ttl_seconds) t) refl,
      )
