-- ===== src/Persistence/WriteQueue/Settling.antt =====
-- What the callers of sidecar/ibreeze/persistence/write_queue.py are told.
use i_breeze.Prelude.{
  ℕ, ltb, true, false, String, ◌≡◌, refl, sym, subst, some, List, ◌∷◌, Bool-cases, inl, inr, ◌⊎◌,
}
use i_breeze.Result.{ok}
use i_breeze.Asyncio.{waiting, returned, raised, future_at, settle-future_at}
use i_breeze.Persistence.Connection.{Faults}
use i_breeze.Persistence.WriteQueue.{WriteEnvelope, WriteQueue, handle, turn}
use i_breeze.Persistence.WriteQueue.Cases.{turn-handle, transact-cases}

module _ {V D : Type 0} where
  -- The caller got an exception and nothing was committed, or it got the answer of the command in time, and
  -- the database is what the command made of it.
  abbrev pub Outcome : WriteEnvelope V D → ℕ → WriteQueue V D → WriteQueue V D → Type 0
  Outcome e now q q' =
      ((x : String) × (future_at e.future q'.futures ≡ some (raised x))
        × (q'.connection.database ≡ q.connection.database))
      ⊎ ((v : V) × (future_at e.future q'.futures ≡ some (returned v))
          × (e.execute q.connection.database ≡ (ok v, q'.connection.database))
          × (ltb e.deadline_at now ≡ false))

  handle-Outcome :
      (q : WriteQueue V D) (e : WriteEnvelope V D) (now : ℕ) (faults : Faults)
      → future_at e.future q.futures ≡ some waiting
      → Outcome e now q (handle q e now faults false)
  unfolding handle
  handle-Outcome q e now faults w = elim (Bool-cases (ltb e.deadline_at now)) [
    | inl y ↦
        rw (w, y) (inl ("IPC_DEADLINE_EXCEEDED", settle-future_at e.future _ q.futures w, refl))
    | inr y ↦ elim (transact-cases faults e.execute q.connection) [
      | inl (x, t, d) ↦ rw (w, y, t) (inl (x, settle-future_at e.future _ q.futures w, d))
      | inr (v, t, c) ↦ rw (w, y, t) (inr (v, settle-future_at e.future _ q.futures w, c, refl))
    ]
  ]

  -- A turn of the worker takes the oldest envelope, whose caller still waits: the caller gets an exception
  -- and nothing was committed, or the deadline has not passed, the caller gets the answer of the command
  -- and the database is what the command made of it.
  pub turn-Outcome :
      (q : WriteQueue V D) (e : WriteEnvelope V D) (rest : List (WriteEnvelope V D)) (now : ℕ)
      (faults : Faults)
      → q.worker ≡ true
      → q.queue ≡ e ∷ rest
      → future_at e.future q.futures ≡ some waiting
      → Outcome e now q (turn q now faults false)
  turn-Outcome q e rest now faults r h w =
      subst (Outcome e now q) (sym (turn-handle q e rest now faults false r h))
        (handle-Outcome (record q { queue = rest }) e now faults w)
