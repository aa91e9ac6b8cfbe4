-- ===== src/Runtime/Scheduler/Order.antt =====
-- The row that `dequeue_next` of sidecar/ibreeze/runtime/scheduler.py takes.
use i_breeze.Prelude.{
  true, false, Option, none, some, List, [], ◌∷◌, keep_if, if◌then◌else◌, ◌≡◌, refl, sym, arith,
  Memᴰ, Bool-cases, inl, inr, subst, keep_if→Mem, Mem→keep_if,
}
use i_breeze.Runtime.Stamp.{
  Stamp, earlier_null, earlier_trans, earlier_irrefl, earlier_null_trans, earlier_null_weak,
}
use i_breeze.Runtime.Scheduler.{
  QueueRow, Tables, dispatched, sooner, earliest, first_of, is_ready, dequeue_next,
}

module _ (db : Tables) where
  pub sooner_trans :
      (a b c : QueueRow) → sooner db a b ≡ true → sooner db b c ≡ true → sooner db a c ≡ true
  unfolding sooner
  sooner_trans a b c p q =
      let x = dispatched db a in
      let y = dispatched db b in
      let z = dispatched db c in
      ground (
        arith,
        earlier_null_trans x y z,
        earlier_null_weak x z y,
        earlier_null_weak y x z,
        earlier_null_weak z y x,
        earlier_trans a.queued_at b.queued_at c.queued_at,
      )

  sooner_irrefl : (a : QueueRow) → sooner db a a ≡ false
  unfolding sooner earlier_null
  sooner_irrefl a = ground (arith, irrefl_null (dispatched db a), earlier_irrefl a.queued_at)
    where
      irrefl_null : (o : Option Stamp) → earlier_null o o ≡ false
      irrefl_null none = refl
      irrefl_null (some s) = earlier_irrefl s

  not_sooner-earliest :
      (x best : QueueRow) (rows : List QueueRow)
      → sooner db x best ≡ false
      → sooner db x (earliest db best rows) ≡ false
  unfolding earliest
  not_sooner-earliest x best [] h = h
  not_sooner-earliest x best (r ∷ rows) h = elim (Bool-cases (sooner db r best)) [
    | inl e ↦
        rw (e, earliest) (not_sooner-earliest x r rows (ground (arith, sooner_trans x r best)))
    | inr e ↦ rw (e, earliest) (not_sooner-earliest x best rows h)
  ]

  earliest_least_of :
      (x : QueueRow) (rows : List QueueRow)
      → Memᴰ x rows
      → (best : QueueRow) → sooner db x (earliest db best rows) ≡ false
  unfolding earliest
  earliest_least_of x [] i best = elim i [ ]
  earliest_least_of x (r ∷ rows) (Memᴰ.head q) best = elim (Bool-cases (sooner db r best)) [
    | inl e ↦ rw (e, earliest) (not_sooner-earliest x r rows (rw q (sooner_irrefl r)))
    | inr e ↦ rw (e, earliest) (not_sooner-earliest x best rows (rw q e))
  ]
  earliest_least_of x (r ∷ rows) (Memᴰ.tail i) best =
      earliest_least_of x rows i (if sooner db r best then r else best)

  earliest_least :
      (x best : QueueRow) (rows : List QueueRow)
      → Memᴰ x (best ∷ rows)
      → sooner db x (earliest db best rows) ≡ false
  earliest_least x best rows (Memᴰ.head q) =
      not_sooner-earliest x best rows (rw q (sooner_irrefl best))
  earliest_least x best rows (Memᴰ.tail i) = earliest_least_of x rows i best

  earliest-Mem :
      (best : QueueRow) (rows : List QueueRow) → Memᴰ (earliest db best rows) (best ∷ rows)
  unfolding earliest
  earliest-Mem best [] = Memᴰ.head refl
  earliest-Mem best (r ∷ rows) = elim (Bool-cases (sooner db r best)) [
    | inl e ↦ rw (e, earliest) (Memᴰ.tail (earliest-Mem r rows))
    | inr e ↦ rw (e, earliest) (skip (earliest-Mem best rows))
  ]
    where
      skip : {x : QueueRow} → Memᴰ x (best ∷ rows) → Memᴰ x (best ∷ r ∷ rows)
      skip (Memᴰ.head q) = Memᴰ.head q
      skip (Memᴰ.tail i) = Memᴰ.tail (Memᴰ.tail i)

  -- What `dequeue_next` may answer: nothing if no row is ready, else a ready row that no ready row
  -- precedes by last dispatch of the company, priority and time of queueing.
  pub data Next : Option QueueRow → Type 0 where
    idle : ((x : QueueRow) → Memᴰ x db.runtime_queue → is_ready x ≡ false) → Next none
    next :
        (r : QueueRow)
        → Memᴰ r db.runtime_queue
        → is_ready r ≡ true
        → ((x : QueueRow) → Memᴰ x db.runtime_queue → is_ready x ≡ true → sooner db x r ≡ false)
        → Next (some r)

  first_of-Next :
      (rows : List QueueRow) → rows ≡ keep_if is_ready db.runtime_queue → Next (first_of db rows)
  unfolding first_of
  first_of-Next [] e = idle (λ x i. elim (Bool-cases (is_ready x)) [
    | inl t ↦
        absurd
          (nowhere x (subst (λ l. Memᴰ x l) (sym e) (Mem→keep_if is_ready x db.runtime_queue i t)))
    | inr f ↦ f
  ])
    where
      nowhere : (x : QueueRow) → Memᴰ x [] → ⊥
      nowhere x i = elim i [ ]
  first_of-Next (r ∷ rows) e =
      let m = earliest db r rows in
      let k =
        keep_if→Mem is_ready m db.runtime_queue (subst (λ l. Memᴰ m l) e (earliest-Mem r rows)) in
      next m k.0 k.1 (λ x i t.
        earliest_least x r rows
          (subst (λ l. Memᴰ x l) (sym e) (Mem→keep_if is_ready x db.runtime_queue i t)))

  -- Every case of `dequeue_next`: it answers none exactly if no row is ready, and else a ready row of
  -- the queue that comes first in the order of the query.
  pub dequeue_next-Next : Next (dequeue_next db)
  unfolding dequeue_next
  dequeue_next-Next = first_of-Next (keep_if is_ready db.runtime_queue) refl
