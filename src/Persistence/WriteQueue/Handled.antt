-- ===== src/Persistence/WriteQueue/Handled.antt =====
-- What the worker of sidecar/ibreeze/persistence/write_queue.py takes from its queue, and what each of these
-- does to the database if a command is atomic.
use i_breeze.Prelude.{ℕ, Bool, true, false, String, not, List, [], ◌∷◌, ◌++◌, if◌then◌else◌}
use i_breeze.Result.{Result, ok, err}
use i_breeze.Persistence.Connection.{Connection, Faults, is_some}
use i_breeze.Persistence.WriteQueue.{
  WriteEnvelope, WriteQueue, is_void, Event, turns, interrupts, step,
}

abbrev pub Command : Type 0 → Type 0 → Type 0
Command V D = D → Result String V × D

-- A command that was not executed, since its caller had given up or its deadline had passed; one that was
-- executed, with what the connection raised; and one that `stop` cut off.
pub data Handling (V D : Type 0) : Type 0 where
  passed_over : Command V D → Handling V D
  executed : Command V D → Faults → Handling V D
  broken_off : Command V D → Handling V D

-- The committed database, and whether a transaction was left open.
pub record Store (D : Type 0) : Type 0 where
  pub database : D
  pub is_open : Bool

abbrev pub stored : {D : Type 0} → Connection D → Store D
stored k = record { database = k.database; is_open = is_some k.transaction }

module _ {V D : Type 0} where
  abbrev pub command_of : Handling V D → Command V D
  command_of (passed_over c) = c
  command_of (executed c faults) = c
  command_of (broken_off c) = c

  -- There are no partial effects here: a command that answers and whose COMMIT does not raise changes the
  -- database at once, and nothing else does. A transaction that was left open, by a ROLLBACK that raised or
  -- by a command that was cut off, only makes the next command be refused.
  abbrev pub atomic : Handling V D → Store D → Store D
  atomic (passed_over c) s = s
  atomic (broken_off c) s = record s { is_open = true }
  atomic (executed c faults) s =
      let failed = record s { is_open = is_some faults.rollback_raises } in
      if s.is_open
      then failed
      else if is_some faults.begin_raises
      then s
      else elim (c s.database).0 [
        | err e ↦ failed
        | ok v ↦
            if is_some faults.commit_raises
            then failed
            else record { database = (c s.database).1; is_open = false }
      ]

  unfoldable pub atomic_all : List (Handling V D) → Store D → Store D
  atomic_all [] s = s
  atomic_all (h ∷ hs) s = atomic_all hs (atomic h s)

  -- What the worker takes in an event, and how.
  abbrev taken_as : (WriteEnvelope V D → Handling V D) → WriteQueue V D → ℕ → List (Handling V D)
  taken_as how q now = if not q.worker then [] else elim q.queue [
    | [] ↦ []
    | e ∷ rest ↦ (if is_void q e now then passed_over e.execute else how e) ∷ []
  ]

  unfoldable pub handled_by : WriteQueue V D → Event V D → List (Handling V D)
  handled_by q (turns now faults gives_up) = taken_as (λ e. executed e.execute faults) q now
  handled_by q (interrupts now writes) = taken_as (λ e. broken_off e.execute) q now
  handled_by q _ = []

  unfoldable pub all_handled : WriteQueue V D → List (Event V D) → List (Handling V D)
  all_handled q [] = []
  all_handled q (e ∷ es) = handled_by q e ++ all_handled (step q e) es
