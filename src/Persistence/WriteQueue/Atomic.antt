-- ===== src/Persistence/WriteQueue/Atomic.antt =====
-- Single turns of sidecar/ibreeze/persistence/write_queue.py are atomic.
use i_breeze.Prelude.{
  ℕ, Bool, true, false, String, ◌≡◌, refl, Option, none, some, Bool-cases, inl, inr, arith,
}
use i_breeze.Result.{Result, ok, err}
use i_breeze.Asyncio.{future_at, is_cancelled}
use i_breeze.Persistence.Connection.{Connection, Faults, is_some}
use i_breeze.Persistence.WriteQueue.{
  WriteEnvelope, WriteQueue, attempt, transact, is_void, handle, cut_off,
}
use i_breeze.Persistence.WriteQueue.Handled.{Command, executed, broken_off, stored, atomic}

module _ {V D : Type 0} where
  -- A turn's BEGIN, command, COMMIT and ROLLBACK together are atomic.
  pub transact-atomic :
      (faults : Faults) (c : Command V D) (k : Connection D)
      → stored (transact faults c k).1 ≡ atomic (executed c faults) (stored k)
  unfolding transact attempt
  transact-atomic faults c k =
      go faults.begin_raises faults.commit_raises faults.rollback_raises k.transaction
    where
      Atomic : Faults → Command V D → Option D → Type 0
      Atomic f command o =
          stored (transact f command (record { database = k.database; transaction = o })).1
          ≡ atomic (executed command f) (record { database = k.database; is_open = is_some o })

      of : Option String → Option String → Option String → Faults
      of b m r = record { begin_raises = b; commit_raises = m; rollback_raises = r }

      answered :
          (m r : Option String) (x : Result String V) (d : D)
          → Atomic (of none m r) (λ _. (x, d)) none
      answered m none (err e) d = refl
      answered m (some x) (err e) d = refl
      answered none r (ok v) d = refl
      answered (some x) none (ok v) d = refl
      answered (some x) (some y) (ok v) d = refl

      go : (b m r : Option String) (o : Option D) → Atomic (of b m r) c o
      go (some x) m none none = refl
      go (some x) m none (some w) = refl
      go (some x) m (some y) none = refl
      go (some x) m (some y) (some w) = refl
      go none m none (some w) = refl
      go none m (some y) (some w) = refl
      go none m r none = answered m r (c k.database).0 (c k.database).1

  pub cut_off-atomic :
      (c : Command V D) (writes : D → D) (k : Connection D)
      → stored (cut_off writes k) ≡ atomic (broken_off c) (stored k)
  unfolding cut_off
  cut_off-atomic c writes k = go k.transaction
    where
      go :
          (o : Option D)
          → stored (cut_off writes (record { database = k.database; transaction = o }))
            ≡ atomic (broken_off c) (record { database = k.database; is_open = is_some o })
      go none = refl
      go (some w) = refl

  pub handle-void :
      (q : WriteQueue V D) (e : WriteEnvelope V D) (now : ℕ) (faults : Faults) (gives_up : Bool)
      → is_void q e now ≡ true
      → (handle q e now faults gives_up).connection ≡ q.connection
  unfolding handle
  handle-void q e now faults gives_up h =
      elim (Bool-cases (is_cancelled (future_at e.future q.futures))) [
        | inl x ↦ rw x refl
        | inr x ↦ rw (x, (rw x at h)) refl
      ]

  pub handle-executed :
      (q : WriteQueue V D) (e : WriteEnvelope V D) (now : ℕ) (faults : Faults) (gives_up : Bool)
      → is_void q e now ≡ false
      → (handle q e now faults gives_up).connection ≡ (transact faults e.execute q.connection).1
  unfolding handle
  handle-executed q e now faults gives_up h =
      elim (Bool-cases (is_cancelled (future_at e.future q.futures))) [
        | inl x ↦ let z = rw x at h in ground arith
        | inr x ↦ rw (x, (rw x at h)) refl
      ]
