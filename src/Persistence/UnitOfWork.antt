-- ===== src/Persistence/UnitOfWork.antt =====
-- sidecar/ibreeze/persistence/unit_of_work.py, in a transaction as sidecar/ibreeze/persistence/write_queue.py
-- opens it. `V` is what commands answer, `as_text` whether it is a str, `dumps` and `loads` are those of
-- json; `append_all` and `enqueue_all` write events and outbox rows to the other tables, `D`.
use i_breeze.Prelude.{ℕ, ◌*◌, String, Bool, not, Option, none, some, if◌then◌else◌}
use i_breeze.Result.{Result, ok, err, ◌>>=◌}
use i_breeze.Persistence.Idempotency.{
  IdempotencyTable, Cached, response, error, truthy, text_of, look_up, claim, complete,
}

pub record Database (D : Type 0) : Type 0 where
  pub idempotency : IdempotencyTable
  pub tables : D

pub record CommandResult (V E O : Type 0) : Type 0 where
  pub answer : V
  pub events : E
  pub outbox : O

module _ {V E O D : Type 0} (is_digest : String → Bool) (as_text : V → Option String)
    (dumps : V → String) (loads : String → Result String V) (append_all : D → E → Result String D)
    (enqueue_all : D → O → Result String D) where
  -- `response_json` of a response
  unfoldable pub encoded : V → String
  encoded v = elim (as_text v) [ none ↦ dumps v | some s ↦ s ]

  -- What is answered at once for a request that was seen before.
  unfoldable pub replayed : Cached → Result String V
  replayed (response r) = loads r
  replayed (error e) = err (elim e [ none ↦ "None" | some code ↦ code ])

  unfoldable pub run_command :
      (D → Result String (CommandResult V E O × D)) → D → Result String (V × D)
  run_command command d = do
    done ← command d
    d1 ← append_all done.1 done.0.events
    d2 ← enqueue_all d1 done.0.outbox
    ok (done.0.answer, d2)

  -- The first run under a key: the claim, the command, and the answer kept.
  unfoldable pub first_run :
      Database D
      → String
      → String
      → (D → Result String (CommandResult V E O × D))
      → ℕ
      → ℕ
      → Result String (V × Database D)
  unfolding encoded run_command
  first_run db key request_sha256 command now ttl_days = do
    claimed ← claim is_digest db.idempotency key request_sha256 now (ttl_days * 86400)
    if claimed.0
        then (do
          done ← run_command command db.tables
          ok (
            done.0,
            record {
              idempotency = complete claimed.1 key (some (encoded done.0)) none;
              tables = done.1;
            },
          ))
        else err "IDEMPOTENCY_CLAIM_FAILED"

  -- `UnitOfWork.execute`; `in_transaction` is the connection's
  unfoldable pub execute :
      Bool
      → Database D
      → Option String
      → String
      → (D → Result String (CommandResult V E O × D))
      → ℕ
      → ℕ
      → Result String (V × Database D)
  unfolding first_run replayed
  execute in_transaction db key request_sha256 command now ttl_days =
      if not in_transaction
      then err "WRITE_QUEUE_REQUIRED"
      else if truthy key
      then (do
        cached ← look_up db.idempotency key request_sha256
        elim cached [
          | none ↦ first_run db (text_of key) request_sha256 command now ttl_days
          | some c ↦ do v ← replayed c; ok (v, db)
        ])
      else (do
        done ← run_command command db.tables
        ok (done.0, record { idempotency = db.idempotency; tables = done.1 }))
