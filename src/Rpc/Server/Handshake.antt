-- ===== src/Rpc/Server/Handshake.antt =====
-- `_handshake` of sidecar/ibreeze/rpc/production_server.py.
use i_breeze.Prelude.{
  String, str_eq, Bool, true, false, ◌&&◌, ◌||◌, Option, none, some, List, [], ◌∷◌, lookup, keys,
  is_in, all, contains, if◌then◌else◌,
}
use i_breeze.Result.{Result, ok, err, guard, ◌>>=◌, ◌>>◌}
use i_breeze.Rpc.Server.{
  Fields, PyError, value_error, other_error, Values, Library, HealthReport, Services, Server,
  protocol_version,
}

abbrev pub required : List String
required = "app_version" ∷ "protocol_version" ∷ "launch_id" ∷ "nonce" ∷ "proof" ∷ []

-- `params[key]`
abbrev pub get_item {ℓ} : {A : Type ℓ} → Option A → Result PyError A
get_item none = err (other_error "KeyError")
get_item (some a) = ok a

module _ {J W : Type 0} (values : Values J) (library : Library J) (services : Services J W) where
  -- `v == s` for a text
  abbrev pub is_text : J → String → Bool
  is_text v s = elim (values.as_text v) [ none ↦ false | some t ↦ str_eq t s ]

  -- The proof against the one that is expected for the nonce.
  unfoldable pub check_proof : String → String → J → J → Result PyError (Unit {0})
  check_proof app_version launch_id nonce proof = do
    expected ← library.expected_proof app_version launch_id nonce
    matches ← library.compare_digest expected proof
    guard matches (value_error "AUTHENTICATION_FAILED")

  unfoldable pub prove : String → String → Fields J → Result PyError (Unit {0})
  prove app_version launch_id params = do
    nonce ← get_item (lookup "nonce" params)
    proof ← get_item (lookup "proof" params)
    check_proof app_version launch_id nonce proof

  unfoldable pub check_launch : String → String → Fields J → Result PyError (Unit {0})
  check_launch app_version launch_id params = do
    app ← get_item (lookup "app_version" params)
    launch ← get_item (lookup "launch_id" params)
    guard (is_text app app_version && is_text launch launch_id)
        (value_error "AUTHENTICATION_FAILED")

  unfoldable pub check_protocol : Fields J → Result PyError (Unit {0})
  check_protocol params = do
    version ← get_item (lookup "protocol_version" params)
    guard (values.equals_one version) (value_error "PROTOCOL_MISMATCH")

  -- The tests of the parameters.
  unfoldable pub authenticate : String → String → Fields J → Result PyError (Unit {0})
  unfolding check_protocol check_launch prove check_proof
  authenticate app_version launch_id params = do
    guard (all (λ k. contains k required) (keys params) && all (λ k. is_in k params) required)
        (value_error "VALIDATION_FAILED")
    check_protocol params
    check_launch app_version launch_id params
    prove app_version launch_id params

  abbrev pub handshake_result : String → HealthReport → J
  handshake_result id report = values.of_fields (
      ("ipc_session_id", values.of_text id)
      ∷ ("protocol_version", values.of_number protocol_version)
      ∷ ("profile_status", values.of_text "ready")
      ∷ ("database_status", values.of_text (if services.has_writer then "ready" else "unknown"))
      ∷ ("migration_version", values.of_number report.migration_version)
      ∷ [])

  -- `_handshake` with the id that it makes.
  unfoldable pub handshake : Server W → Fields J → String → Result PyError (J × Server W)
  unfolding authenticate
  handshake server params new_id = do
    guard (elim server.ipc_session_id [ none ↦ true | some _ ↦ false ])
        (value_error "STATE_TRANSITION_INVALID")
    authenticate server.app_version server.launch_id params
    report ← services.health server.world
    guard (str_eq report.status "healthy" || str_eq report.status "degraded")
        (value_error "SIDECAR_NOT_READY")
    guard (elim server.session [ none ↦ false | some _ ↦ true ]) (value_error "IPC_SESSION_INVALID")
    ok (
      handshake_result new_id report,
      record server { ipc_session_id = some new_id; session = some new_id },
    )
