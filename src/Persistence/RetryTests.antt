-- ===== src/Persistence/RetryTests.antt =====
-- An instance of the theorem on repeated requests at the write queue.
use i_breeze.Prelude.{ℕ, String, true, false, some, [], ◌≡◌, refl, ◌⊎◌, lookup, put}
use i_breeze.Result.{Result}
use i_breeze.Asyncio.{waiting, returned, raised, future_at, settle}
use i_breeze.Persistence.Connection.{sound}
use i_breeze.Persistence.Idempotency.{look_up, claim, complete}
use i_breeze.Persistence.UnitOfWork.{Database, encoded, run_command, first_run, execute}
use i_breeze.Persistence.WriteQueue.{
  WriteEnvelope, WriteQueue, new_queue, put_envelope, attempt, transact, handle, turn,
}
use i_breeze.Persistence.Retry.{at_queue, turn-once}
use i_breeze.Persistence.Tests.{
  digest, no_text, write, read, no_rows, bump, fresh, written, read_back,
}

-- The request that counts, at an instant.
abbrev request : ℕ → Database ℕ → Result String ℕ × Database ℕ
request at db =
    at_queue db
      (execute digest no_text write read no_rows no_rows true db (some "k") "5f" bump at 30)

abbrev twice : WriteQueue ℕ (Database ℕ)
twice = put_envelope (put_envelope (new_queue 8 fresh) "a" 9 (request 7)) "b" 9 (request 8)

abbrev first : WriteEnvelope ℕ (Database ℕ)
first = record { command_name = "a"; deadline_at = 9; execute = request 7; future = 0 }

abbrev second : WriteEnvelope ℕ (Database ℕ)
second = record { command_name = "b"; deadline_at = 9; execute = request 8; future = 1 }

abbrev once : WriteQueue ℕ (Database ℕ)
once = turn twice 7 sound false

first_waits : future_at 0 twice.futures ≡ some waiting
unfolding future_at
first_waits = refl

second_waits : future_at 1 once.futures ≡ some waiting
unfolding turn handle attempt transact future_at settle execute first_run run_command encoded
    look_up claim complete lookup put
second_waits = refl

first_answered : future_at 0 once.futures ≡ some (returned 1)
unfolding turn handle attempt transact future_at settle execute first_run run_command encoded
    look_up claim complete lookup put
first_answered = refl

turn-once_example :
    ((turn once 8 sound false).connection.database ≡ once.connection.database)
    × ((future_at 1 (turn once 8 sound false).futures ≡ some (returned 1))
        ⊎ ((x : String) × (future_at 1 (turn once 8 sound false).futures ≡ some (raised x))))
turn-once_example =
    turn-once digest no_text write read no_rows no_rows twice first second [] "k" "5f" bump bump 7
      30 8 30 7 8 sound sound (λ db. db) (λ db. db) 1 refl written read_back refl refl refl refl
      first_waits second_waits first_answered
