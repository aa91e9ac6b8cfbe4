-- ===== src/Runtime/Scheduler/Fairness.antt =====
-- Fairness between companies in sidecar/ibreeze/runtime/scheduler.py.
use i_breeze.Prelude.{
  String, str_eq, eq_iff, true, false, Option, none, some, ◌≡◌, ◌≢◌, refl, sym, ◌∙◌, Memᴰ, lookup,
  put, lookup-put, arith, if◌then◌else◌, Bool-cases, inl, inr, ◌⊎◌,
}
use i_breeze.Runtime.Stamp.{Stamp, earlier, earlier_null}
use i_breeze.Runtime.Scheduler.{
  QueueRow, Tables, dispatched, sooner, is_ready, dequeue_next, update_fairness,
}
use i_breeze.Runtime.Scheduler.Order.{Next, idle, next, dequeue_next-Next}

-- No company was dispatched at `now` or later.
abbrev pub AllBefore : Tables → Stamp → Type 0
AllBefore db now =
    (company : String) (s : Stamp) → lookup company db.fairness ≡ some s → earlier s now ≡ true

module _ (db : Tables) (company : String) (now : Stamp) where
  -- The row of another company comes before each row of the company just dispatched.
  other_first :
      (r x : QueueRow)
      → AllBefore db now
      → r.company_id ≢ company
      → x.company_id ≡ company
      → sooner (update_fairness db company now) r x ≡ true
  unfolding sooner dispatched update_fairness earlier_null
  other_first r x before n e =
      let fresh : lookup x.company_id (put company now db.fairness) ≡ some now =
        lookup-put company x.company_id now db.fairness
        ∙ rw ((eq_iff company x.company_id).1 (sym e)) refl in
      let old : lookup r.company_id (put company now db.fairness)
          ≡ lookup r.company_id db.fairness =
        lookup-put company r.company_id now db.fairness
        ∙ kept (Bool-cases (str_eq company r.company_id)) in
      let key : earlier_null (lookup r.company_id (put company now db.fairness))
            (lookup x.company_id (put company now db.fairness))
          ≡ true =
        rw (old, fresh) (before_now (lookup r.company_id db.fairness) refl) in
      ground (arith, key)
    where
      kept :
          (str_eq company r.company_id ≡ true) ⊎ (str_eq company r.company_id ≡ false)
          → (if str_eq company r.company_id then some now else lookup r.company_id db.fairness)
            ≡ lookup r.company_id db.fairness
      kept (inl t) = absurd (n (sym ((eq_iff company r.company_id).0 t)))
      kept (inr f) = rw f refl

      before_now :
          (o : Option Stamp)
          → lookup r.company_id db.fairness ≡ o
          → earlier_null o (some now) ≡ true
      before_now none q = refl
      before_now (some s) q = before r.company_id s q

  -- Once a company was dispatched, later than all others before, its rows wait as long as some other
  -- company has a ready row: the next row exists and belongs to another company.
  pub dequeue_next-fair :
      (r : QueueRow)
      → AllBefore db now
      → Memᴰ r db.runtime_queue
      → is_ready r ≡ true
      → r.company_id ≢ company
      → (x : QueueRow) × (dequeue_next (update_fairness db company now) ≡ some x)
        × Memᴰ x db.runtime_queue
        × (x.company_id ≢ company)
  unfolding update_fairness
  dequeue_next-fair r before i ready n =
      go (dequeue_next (update_fairness db company now)) refl
        (dequeue_next-Next (update_fairness db company now))
    where
      go :
          (o : Option QueueRow)
          → dequeue_next (update_fairness db company now) ≡ o
          → Next (update_fairness db company now) o
          → (x : QueueRow) × (dequeue_next (update_fairness db company now) ≡ some x)
            × Memᴰ x db.runtime_queue
            × (x.company_id ≢ company)
      go none e (idle f) = let q = f r i in ground arith
      go (some y) e (next x j t least) = (
        y,
        e,
        j,
        λ c. let q = least r i ready in let w = other_first r y before n c in ground arith,
      )
