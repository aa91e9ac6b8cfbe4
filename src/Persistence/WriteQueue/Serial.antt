-- ===== src/Persistence/WriteQueue/Serial.antt =====
-- What a history of sidecar/ibreeze/persistence/write_queue.py does to the database.
use i_breeze.Prelude.{String, ◌≡◌, List, [], ◌∷◌, ◌++◌, map}
use i_breeze.Result.{Result, ok, err}
use i_breeze.Persistence.WriteQueue.{
  WriteEnvelope, WriteQueue, submit, barrier, Event, submits, barriers, step,
}
use i_breeze.Persistence.WriteQueue.Handled.{Command, Handling, stored, command_of, atomic_all}

module _ {V D : Type 0} where
  -- The commands that wait in a queue.
  abbrev pub waiting_commands : WriteQueue V D → List (Command V D)
  waiting_commands q = map WriteEnvelope.execute q.queue

  abbrev pub unless_raised : Command V D → Result String (WriteQueue V D) → List (Command V D)
  unless_raised c (err e) = []
  unless_raised c (ok q) = c ∷ []

  -- The command that an event puts into a queue, if the queue takes it.
  abbrev pub accepted : WriteQueue V D → Event V D → List (Command V D)
  accepted q (submits name deadline_at execute) =
      unless_raised execute (submit q name deadline_at execute)
  accepted q (barriers no_value far) =
      unless_raised (λ d. (ok no_value, d)) (barrier q no_value far)
  accepted q _ = []

  unfoldable pub all_accepted : WriteQueue V D → List (Event V D) → List (Command V D)
  all_accepted q [] = []
  all_accepted q (e ∷ es) = accepted q e ++ all_accepted (step q e) es

  -- One event: the commands that left the queue, and what the database had of them.
  record Explained (q q' : WriteQueue V D) (taken : List (Command V D))
      (handled : List (Handling V D)) : Type 0 where
    in_order : waiting_commands q ++ taken ≡ map command_of handled ++ waiting_commands q'
    is_atomic : stored q'.connection ≡ atomic_all handled (stored q.connection)
