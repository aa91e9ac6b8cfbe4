-- ===== src/Rpc/Server.antt =====
-- sidecar/ibreeze/rpc/production_server.py: who may call what on the sidecar's socket. The values of JSON are a
-- parameter with Python's tests on them (Values), the application behind the socket is one with its
-- operations on a state `W` (Services). Instants are numbers; new ids come with an event.
pub mod Context
pub mod Handshake
pub mod Dispatch
pub mod Cases
pub mod Access
pub mod Replies
pub mod Commands
mod Tests
use i_breeze.Prelude.{ℕ, String, Bool, true, false, Option, none, some, List, [], ◌∷◌}
use i_breeze.Result.{Result}

-- A dict of JSON.
abbrev pub Fields : Type 0 → Type 0
Fields J = List (String × J)

-- An exception with its text.
pub data PyError : Type 0 where
  value_error : String → PyError
  runtime_error : String → PyError
  other_error : String → PyError

-- Values of JSON: isinstance(v, str), isinstance(v, dict), v is None, bool(v), str(v), v == 1, and
-- the values that the server makes.
pub record Values (J : Type 0) : Type 0 where
  pub as_text : J → Option String
  pub as_object : J → Option (Fields J)
  pub is_none : J → Bool
  pub truthy_value : J → Bool
  pub str : J → String
  pub equals_one : J → Bool
  pub of_text : String → J
  pub of_number : ℕ → J
  pub of_bool : Bool → J
  pub of_fields : Fields J → J

-- The standard library: the text of `uuid.UUID(s)`, a time zone and instant of `fromisoformat`, strip, len,
-- whether each character is upper case, a digit or in "_.:-", the proof expected for a nonce, and
-- `hmac.compare_digest`.
pub record Library (J : Type 0) : Type 0 where
  pub uuid : String → Option String
  pub instant : String → Option (Bool × ℕ)
  pub strip : String → String
  pub len : String → ℕ
  pub all_code : String → Bool
  pub expected_proof : String → String → J → Result PyError String
  pub compare_digest : String → J → Result PyError Bool

-- `CommandContext`; ids by their texts.
pub record CommandContext : Type 0 where
  pub trace_id : String
  pub ipc_session_id : String
  pub window_session_id : Option String
  pub idempotency_key : Option String
  pub deadline_at : Option ℕ

-- What `lifecycle.health()` shows; it always has a profile.
pub record HealthReport : Type 0 where
  pub status : String
  pub observed_at : String
  pub migration_version : ℕ

-- The application: its handlers, the contracts of its methods, and its other calls.
pub record Services (J W : Type 0) : Type 0 where
  pub has_method : String → Bool
  pub dispatch : String → Fields J → CommandContext → W → Result PyError J × W
  pub validate_request : String → Fields J → Option String
  pub validate_response : String → J → Option String
  pub method_is_write : String → Option Bool
  pub publish_broker_event : Fields J → W → Result PyError (Unit {0}) × W
  pub handle_notification : String → Fields J → W → Result PyError (Unit {0}) × W
  pub health : W → Result PyError HealthReport
  pub has_writer : Bool
  pub credential_get_references : Fields J → W → Result PyError J × W
  pub credential_probe_succeeded : Fields J → W → Result PyError J × W

-- The attributes of a `ProductionRpcServer` that its requests read. `session` is the id in the meta data of
-- the session, if a client is connected; `stopping` says that a task for `stop` was made.
pub record Server (W : Type 0) : Type 0 where
  pub app_version : String
  pub launch_id : String
  pub ipc_session_id : Option String
  pub session : Option String
  pub stopping : Bool
  pub world : W

-- PROTOCOL_VERSION
abbrev pub protocol_version : ℕ
protocol_version = 1

-- A response: its id, None in some errors, and a result or a code and a message.
pub data Response (J : Type 0) : Type 0 where
  answers : Option String → J → Response J
  fails : Option String → String → String → Response J
