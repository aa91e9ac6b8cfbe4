-- ===== src/Persistence/WriteQueue/Tests.antt =====
-- Runs of sidecar/ibreeze/persistence/write_queue.py, and instances of its theorems.
use i_breeze.Prelude.{ℕ, ◌+◌, String, true, false, ◌≡◌, refl, none, some, List, [], ◌∷◌, arith}
use i_breeze.Result.{Result, ok, err}
use i_breeze.Asyncio.{waiting, returned, raised, cancelled, future_at, settle, IsDone}
use i_breeze.Persistence.Connection.{Faults, sound}
use i_breeze.Persistence.WriteQueue.{
  WriteQueue, WriteEnvelope, new_queue, put_envelope, submit, attempt, transact, handle, turn,
  cut_off, stop_within, Event, submits, turns, cancels, stops, interrupts, step, steps,
}
use i_breeze.Persistence.WriteQueue.Settling.{Outcome, turn-Outcome}
use i_breeze.Persistence.WriteQueue.Served.{turns_in, runs_on, submit-IsDone}

-- Commands on a counter; the second one raises after it has written.
abbrev add : ℕ → Result String ℕ × ℕ
add d = (ok d, d + 1)

abbrev fails : ℕ → Result String ℕ × ℕ
fails d = (err "ValueError", d + 100)

abbrev empty : WriteQueue ℕ ℕ
empty = new_queue 2 5

-- The third write finds the queue full; the second one fails.
abbrev history : List (Event ℕ ℕ)
history =
    submits "a" 9 add
    ∷ submits "b" 9 fails
    ∷ submits "c" 9 add
    ∷ turns 1 sound false
    ∷ turns 2 sound false
    ∷ submits "d" 9 add
    ∷ submits "e" 9 add
    ∷ cancels 2
    ∷ stops
    ∷ turns 3 sound false
    ∷ turns 10 sound false
    ∷ []

history_run :
    ((steps empty history).connection.database ≡ 6)
    × ((steps empty history).futures
        ≡ returned 5 ∷ raised "ValueError" ∷ cancelled ∷ raised "IPC_DEADLINE_EXCEEDED" ∷ [])
unfolding steps step submit turn handle attempt transact settle future_at
history_run = (refl, refl)

-- One write that waits.
abbrev one : WriteQueue ℕ ℕ
one = put_envelope empty "a" 9 add

abbrev first : WriteEnvelope ℕ ℕ
first = record { command_name = "a"; deadline_at = 9; execute = add; future = 0 }

-- A COMMIT that raises undoes the command; if ROLLBACK raises too, the next BEGIN is refused and its ROLLBACK
-- closes the transaction. A command that is cut off leaves its transaction open.
abbrev locked : Faults
locked = record sound { commit_raises = some "database is locked" }

abbrev stuck : Faults
stuck = record locked { rollback_raises = some "disk I/O error" }

abbrev troubled : List (Event ℕ ℕ)
troubled =
    turns 1 stuck false
    ∷ submits "b" 9 add
    ∷ turns 2 sound false
    ∷ submits "c" 9 add
    ∷ turns 3 sound false
    ∷ []

locked_run :
    ((turn one 1 locked false).connection ≡ record { database = 5; transaction = none })
    × ((steps one (turns 1 stuck false ∷ [])).connection
        ≡ record { database = 5; transaction = some 6 })
    × ((steps one troubled).connection ≡ record { database = 6; transaction = none })
    × ((steps one (interrupts 1 (λ d. d + 1) ∷ [])).connection
        ≡ record { database = 5; transaction = some 6 })
    × ((steps one (interrupts 1 (λ d. d + 1) ∷ [])).futures ≡ waiting ∷ [])
unfolding steps step submit turn handle attempt transact settle future_at stop_within cut_off
locked_run = (refl, refl, refl, refl, refl)

first_waits : future_at 0 one.futures ≡ some waiting
unfolding future_at
first_waits = refl

submit_run : submit empty "a" 9 add ≡ ok one
unfolding submit
submit_run = refl

turn-Outcome_example : Outcome first 1 one (turn one 1 sound false)
turn-Outcome_example = turn-Outcome one first [] 1 sound refl refl first_waits

-- The write is answered though its caller gives up meanwhile, and another one is before it.
abbrev later : List (Event ℕ ℕ)
later = stops ∷ turns 3 sound true ∷ []

runs_on_run : runs_on later ≡ true
unfolding runs_on
runs_on_run = refl

turns_in_run : turns_in later ≡ 1
unfolding turns_in
turns_in_run = refl

submit-IsDone_example : IsDone 0 (steps one later).futures
submit-IsDone_example =
    submit-IsDone empty one "a" 9 add later refl submit_run runs_on_run
      (omega (arith, turns_in_run))
