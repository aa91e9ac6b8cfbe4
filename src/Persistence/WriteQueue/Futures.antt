-- ===== src/Persistence/WriteQueue/Futures.antt =====
-- What sidecar/ibreeze/persistence/write_queue.py does to the futures of its callers.
use i_breeze.Prelude.{
  ℕ, ltb, Bool, true, false, not, List, [], ◌∷◌, if◌then◌else◌, String, ◌≡◌, refl, some, Bool-cases,
  inl, inr,
}
use i_breeze.Asyncio.{Future, cancelled, future_at, is_cancelled, IsDone, settle-IsDone}
use i_breeze.Asyncio.Changes.{
  Settles, same, then_settle, then_wait, Settles-Covers, given_up, given_up-Settles, cancelled-done,
}
use i_breeze.Persistence.Connection.{Faults, sound}
use i_breeze.Persistence.WriteQueue.{
  WriteEnvelope, WriteQueue, full, barrier, transact, handle, turn, Event, submits, barriers, turns,
  cancels, stops, stopped, interrupts, is_void, cut_off, stop_within, step,
}
use i_breeze.Persistence.WriteQueue.Cases.{submit-cases, turn-cases, transact-done}

module _ {V D : Type 0} where
  pub handle-Settles :
      (q : WriteQueue V D) (e : WriteEnvelope V D) (now : ℕ) (faults : Faults) (gives_up : Bool)
      → Settles q.futures (handle q e now faults gives_up).futures
  unfolding handle
  handle-Settles q e now faults gives_up =
      elim (Bool-cases (is_cancelled (future_at e.future q.futures))) [
        | inl x ↦ rw x same
        | inr x ↦ elim (Bool-cases (ltb e.deadline_at now)) [
          | inl y ↦ rw (x, y) (then_settle e.future _ same)
          | inr y ↦
              rw (x, y) (then_settle e.future _ (given_up-Settles gives_up e.future q.futures))
        ]
      ]

  pub handle-IsDone :
      (q : WriteQueue V D) (e : WriteEnvelope V D) (f : Future V String) (now : ℕ) (faults : Faults)
      (gives_up : Bool)
      → future_at e.future q.futures ≡ some f
      → IsDone e.future (handle q e now faults gives_up).futures
  unfolding handle
  handle-IsDone q e f now faults gives_up h =
      elim (Bool-cases (is_cancelled (future_at e.future q.futures))) [
        | inl x ↦ rw x (f, h, cancelled-done f (rw h at x))
        | inr x ↦ elim (Bool-cases (ltb e.deadline_at now)) [
          | inl y ↦ rw (x, y) (settle-IsDone e.future _ f q.futures refl h)
          | inr y ↦
              rw (x, y)
                (let r =
                    Settles-Covers q.futures (given_up gives_up e.future q.futures)
                      (given_up-Settles gives_up e.future q.futures) e.future f h in
                  settle-IsDone e.future (transact faults e.execute q.connection).0 r.0
                    (given_up gives_up e.future q.futures)
                    (transact-done faults e.execute q.connection) r.1)
        ]
      ]

  turn-Settles :
      (q : WriteQueue V D) (now : ℕ) (faults : Faults) (gives_up : Bool)
      → Settles q.futures (turn q now faults gives_up).futures
  turn-Settles q now faults gives_up = elim (turn-cases q now faults gives_up) [
    | inl (w, t) ↦ rw t same
    | inr (e, rest, h, t) ↦ rw t (handle-Settles (record q { queue = rest }) e now faults gives_up)
  ]

  stop_within-Settles :
      (q : WriteQueue V D) (now : ℕ) (writes : D → D)
      → Settles q.futures (stop_within q now writes).futures
  unfolding stop_within
  stop_within-Settles q now writes = go q.worker q.queue
    where
      after : Bool → List (WriteEnvelope V D) → WriteQueue V D
      after w es = if not w then q else elim es [
        | [] ↦ record q { worker = false }
        | e ∷ rest ↦
            if is_void q e now
            then record (handle (record q { queue = rest }) e now sound false) { worker = false }
            else record q { queue = rest; worker = false; connection = cut_off writes q.connection }
      ]

      go : (w : Bool) (es : List (WriteEnvelope V D)) → Settles q.futures (after w es).futures
      go false es = same
      go true [] = same
      go true (e ∷ rest) = elim (Bool-cases (is_void q e now)) [
        | inl x ↦ rw x (handle-Settles (record q { queue = rest }) e now sound false)
        | inr x ↦ rw x same
      ]

  pub step-Settles : (q : WriteQueue V D) (e : Event V D) → Settles q.futures (step q e).futures
  unfolding step barrier
  step-Settles q (submits name deadline_at c) = elim (submit-cases q name deadline_at c) [
    | inl (x, h) ↦ rw h same
    | inr h ↦ rw h (then_wait same)
  ]
  step-Settles q (barriers v far) = elim (Bool-cases (full q)) [
    | inl f ↦ rw f same
    | inr f ↦ rw f (then_wait same)
  ]
  step-Settles q (turns now faults gives_up) = turn-Settles q now faults gives_up
  step-Settles q (cancels i) = then_settle i cancelled same
  step-Settles q stops = same
  step-Settles q stopped = same
  step-Settles q (interrupts now writes) = stop_within-Settles q now writes
