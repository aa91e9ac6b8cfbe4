-- ===== src/Persistence/Tests.antt =====
-- Runs of sidecar/ibreeze/persistence/unit_of_work.py, and an instance of its theorem.
use i_breeze.Prelude.{
  ℕ, ◌+◌, String, Bool, true, List, [], ◌∷◌, Option, none, some, ◌≡◌, refl, lookup, put, str_eq,
  if◌then◌else◌,
}
use i_breeze.Result.{Result, ok, err}
use i_breeze.Persistence.Idempotency.{IdempotencyRow, look_up, lookup_row, claim, complete}
use i_breeze.Persistence.UnitOfWork.{
  Database, CommandResult, encoded, run_command, first_run, execute,
}
use i_breeze.Persistence.Replay.{execute-once}

-- An answer is a number, of which json knows 1 alone.
abbrev pub digest : String → Bool
digest s = true

abbrev pub no_text : ℕ → Option String
no_text n = none

abbrev pub write : ℕ → String
write n = "1"

abbrev pub read : String → Result String ℕ
read s = if str_eq s "1" then ok 1 else err "JSONDecodeError"

abbrev pub no_rows : ℕ → List String → Result String ℕ
no_rows d rows = ok d

-- A command that counts its runs.
abbrev pub bump : ℕ → Result String (CommandResult ℕ (List String) (List String) × ℕ)
bump d = ok (record { answer = 1; events = []; outbox = [] }, d + 1)

abbrev pub fresh : Database ℕ
fresh = record { idempotency = []; tables = 0 }

abbrev done_row : IdempotencyRow
done_row = record {
  request_sha256 = "5f";
  status = "completed";
  response_json = some "1";
  error_code = none;
  created_at = 7;
  expires_at = 2592007;
}

abbrev done : Database ℕ
done = record { idempotency = ("k", done_row) ∷ []; tables = 1 }

execute_run :
    execute digest no_text write read no_rows no_rows true fresh (some "k") "5f" bump 7 30
    ≡ ok (1, done)
unfolding execute first_run run_command encoded look_up claim complete lookup put
execute_run = refl

conflict_run :
    execute digest no_text write read no_rows no_rows true done (some "k") "6e" bump 8 30
    ≡ err "IDEMPOTENCY_CONFLICT"
unfolding execute look_up lookup_row lookup
conflict_run = refl

pub written : str_eq (encoded digest no_text write read no_rows no_rows 1) "" ≡ Bool.false
unfolding encoded
written = refl

pub read_back : read (encoded digest no_text write read no_rows no_rows 1) ≡ ok 1
unfolding encoded
read_back = refl

execute-once_example :
    execute digest no_text write read no_rows no_rows true done (some "k") "5f" bump 9 1
    ≡ ok (1, done)
execute-once_example =
    execute-once digest no_text write read no_rows no_rows fresh done "k" "5f" bump bump 7 30 9 1 1
      refl written read_back execute_run
