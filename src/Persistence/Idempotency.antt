-- ===== src/Persistence/Idempotency.antt =====
-- sidecar/ibreeze/persistence/idempotency.py over the table idempotency, by its primary key. Instants are
-- numbers of seconds; `is_digest` stands for the CHECK of request_sha256.
use i_breeze.Prelude.{
  ℕ, ◌+◌, String, str_eq, Bool, true, false, not, ◌&&◌, Option, none, some, List, lookup, put,
  is_in, if◌then◌else◌,
}
use i_breeze.Result.{Result, ok, err}

pub record IdempotencyRow : Type 0 where
  pub request_sha256 : String
  pub status : String
  pub response_json : Option String
  pub error_code : Option String
  pub created_at : ℕ
  pub expires_at : ℕ

abbrev pub IdempotencyTable : Type 0
IdempotencyTable = List (String × IdempotencyRow)

-- What `lookup` answers: `{"response": ...}` or `{"error": ...}`.
pub data Cached : Type 0 where
  response : String → Cached
  error : Option String → Cached

-- a text that is there and not empty
abbrev pub truthy : Option String → Bool
truthy none = false
truthy (some s) = not (str_eq s "")

abbrev pub text_of : Option String → String
text_of none = ""
text_of (some s) = s

unfoldable pub lookup_row : IdempotencyRow → String → Result String (Option Cached)
lookup_row row request_sha256 =
    if not (str_eq row.request_sha256 request_sha256)
    then err "IDEMPOTENCY_CONFLICT"
    else if str_eq row.status "completed" && truthy row.response_json
    then ok (some (response (text_of row.response_json)))
    else if str_eq row.status "failed"
    then ok (some (error row.error_code))
    else if str_eq row.status "processing"
    then err "IDEMPOTENCY_CONFLICT"
    else ok none

-- `IdempotencyStore.lookup`
unfoldable pub look_up : IdempotencyTable → Option String → String → Result String (Option Cached)
unfolding lookup_row
look_up table none request_sha256 = ok none
look_up table (some key) request_sha256 = elim (lookup key table) [
  | none ↦ ok none
  | some row ↦ lookup_row row request_sha256
]

-- The row that a claim inserts.
abbrev pub processing : String → ℕ → ℕ → IdempotencyRow
processing request_sha256 now ttl = record {
  request_sha256 = request_sha256;
  status = "processing";
  response_json = none;
  error_code = none;
  created_at = now;
  expires_at = now + ttl;
}

-- `IdempotencyStore.claim`, with the table after it
unfoldable pub claim :
    (String → Bool)
    → IdempotencyTable
    → String
    → String
    → ℕ
    → ℕ
    → Result String (Bool × IdempotencyTable)
claim is_digest table key request_sha256 now ttl =
    if not (is_digest request_sha256)
    then err "IntegrityError"
    else if is_in key table
    then ok (false, table)
    else ok (true, put key (processing request_sha256 now ttl) table)

-- `UPDATE idempotency SET ... WHERE idempotency_key=?`
abbrev pub update_key :
    (IdempotencyRow → IdempotencyRow) → String → IdempotencyTable → IdempotencyTable
update_key change key table = elim (lookup key table) [
  | none ↦ table
  | some row ↦ put key (change row) table
]

-- `IdempotencyStore.complete`
unfoldable pub complete :
    IdempotencyTable → String → Option String → Option String → IdempotencyTable
complete table key (some r) error_code =
    update_key (λ row. record row { status = "completed"; response_json = some r }) key table
complete table key none (some e) =
    update_key (λ row. record row { status = "failed"; error_code = some e }) key table
complete table key none none = table
