-- ===== src/Rpc/Server/Dispatch.antt =====
-- `_dispatch` of sidecar/ibreeze/rpc/production_server.py, a client that comes and goes, and `stop`. A request
-- is handled at once; what happens to the tasks and streams of a connection is not read here.
use i_breeze.Prelude.{
  ℕ, String, str_eq, Bool, true, false, not, ◌&&◌, ltb, leb, Option, none, some, List, [], ◌∷◌,
  lookup, is_in, contains, if◌then◌else◌,
}
use i_breeze.Result.{Result, ok, err}
use i_breeze.Rpc.Server.{
  Fields, PyError, value_error, runtime_error, other_error, Values, Library, Services, Server,
  Response, answers, fails, CommandContext,
}
use i_breeze.Rpc.Server.Context.{context_from_meta}
use i_breeze.Rpc.Server.Handshake.{handshake}

-- The notifications of the Rust host.
abbrev pub host_methods : List String
host_methods =
    "runtime.process.registered" ∷ "runtime.process.output" ∷ "runtime.process.exited"
    ∷ "credential.http.event" ∷ []

module _ {W : Type 0} where
  -- The session on the socket has made the handshake.
  unfoldable pub is_authorised : Server W → Bool
  is_authorised server = elim server.ipc_session_id [
    | none ↦ false
    | some a ↦ elim server.session [ none ↦ false | some b ↦ str_eq a b ]
  ]

  -- `_handle_client` takes one client at a time; `new_id` is the id of its session.
  unfoldable pub connect : Server W → String → Server W
  connect server new_id = elim server.session [
    | none ↦ record server { session = some new_id }
    | some _ ↦ server
  ]

  -- The end of `_handle_client`.
  abbrev pub disconnect : Server W → Server W
  disconnect server = record server { ipc_session_id = none; session = none }

  -- `stop`, up to the end of the connection that it closes.
  abbrev pub stop : Server W → Server W
  stop server = record server { ipc_session_id = none }

module _ {J : Type 0} (values : Values J) where
  -- `request.get("id")`, if it is None or a text
  unfoldable pub request_id : Fields J → Option (Option String)
  request_id request = elim (lookup "id" request) [
    | none ↦ some none
    | some v ↦
        if values.is_none v
        then some none
        else elim (values.as_text v) [ none ↦ none | some i ↦ some (some i) ]
  ]

  -- `request.get("params", {})`, if it is a dict
  unfoldable pub request_params : Fields J → Option (Fields J)
  request_params request = elim (lookup "params" request) [
    | none ↦ some []
    | some v ↦ values.as_object v
  ]

  unfoldable pub text_at : String → Fields J → Option String
  text_at key request = elim (lookup key request) [ none ↦ none | some v ↦ values.as_text v ]

module _ {J W : Type 0} (values : Values J) (library : Library J) (services : Services J W) where
  -- `_safe_exception_message`
  unfoldable pub safe_exception_message : PyError → String
  safe_exception_message (value_error e) =
      let message = library.strip e in
      if ltb 0 (library.len message) && leb (library.len message) 160 && library.all_code message
      then message
      else "INTERNAL_ERROR"
  safe_exception_message (runtime_error e) =
      let message = library.strip e in
      if ltb 0 (library.len message) && leb (library.len message) 160 && library.all_code message
      then message
      else "INTERNAL_ERROR"
  safe_exception_message (other_error e) = "INTERNAL_ERROR"

  -- The end of the block: a notification gets no response.
  unfoldable pub finish : Option String → Result PyError J → Option (Response J)
  unfolding safe_exception_message
  finish none outcome = none
  finish (some i) (ok v) = some (answers (some i) v)
  finish (some i) (err e) = some (fails (some i) "-32000" (safe_exception_message e))

  abbrev pub accepted : J
  accepted = values.of_fields (("accepted", values.of_bool true) ∷ [])

  -- A handler, and the test of what it answers.
  abbrev pub checked_answer : Option String → String → Result PyError J → Option (Response J)
  checked_answer id method (err e) = finish id (err e)
  checked_answer id method (ok v) = elim (services.validate_response method v) [
    | some e ↦ some (fails id "-32603" e)
    | none ↦ finish id (ok v)
  ]

  abbrev pub run_handler :
      Server W → Option String → String → Fields J → CommandContext → Option (Response J) × Server W
  run_handler server id method params context =
      let done = services.dispatch method params context server.world in
      (checked_answer id method done.0, record server { world = done.1 })

  -- A method of the application: the part of `_dispatch` after its last `else`. The message of an error
  -- of the contracts is shown without its first words.
  unfoldable pub command :
      Server W → Option String → String → Fields J → Option J → ℕ → Option (Response J) × Server W
  unfolding finish
  command server id method params meta now =
      if not (services.has_method method)
      then (some (fails id "-32601" "Method not found."), server)
      else elim (services.validate_request method params) [
        | some e ↦ (some (fails id "-32602" e), server)
        | none ↦
            elim (context_from_meta values library meta
              (elim server.session [ none ↦ "" | some s ↦ s ]) (services.method_is_write method)
              now) [
                | err e ↦ (finish id (err e), server)
                | ok context ↦
                    if is_in "idempotency_key" params
                    then (finish id (err (value_error "IDEMPOTENCY_KEY_MUST_BE_IN_META")), server)
                    else run_handler server id method params context
              ]
      ]

  -- The outcome of a call that may change the world.
  abbrev pub effect :
      Server W → Option String → Result PyError J × W → Option (Response J) × Server W
  effect server id done = (finish id done.0, record server { world = done.1 })

  abbrev pub accepts : Result PyError (Unit {0}) × W → Result PyError J × W
  accepts (err e, w) = (err e, w)
  accepts (ok tt, w) = (ok accepted, w)

  -- What an authorised session may call.
  unfoldable pub serve :
      Server W → Option String → String → Fields J → Option J → ℕ → Option (Response J) × Server W
  unfolding command
  serve server id method params meta now =
      if contains method host_methods
      then effect server id (
          accepts (
            if str_eq method "credential.http.event"
            then services.publish_broker_event params server.world
            else services.handle_notification method params server.world))
      else if str_eq method "system.health"
      then elim (services.health server.world) [
        | err e ↦ (finish id (err e), server)
        | ok report ↦ (
          finish id (
              ok (
                values.of_fields (
                  ("status", values.of_text report.status)
                  ∷ ("observed_at", values.of_text report.observed_at)
                  ∷ ("migration_version", values.of_number report.migration_version)
                  ∷ []))),
          server,
        )
      ]
      else if str_eq method "system.shutdown"
      then (finish id (ok accepted), record server { stopping = true })
      else if str_eq method "credential.getReferences"
      then effect server id (services.credential_get_references params server.world)
      else if str_eq method "credential.probeSucceeded"
      then effect server id (services.credential_probe_succeeded params server.world)
      else command server id method params meta now

  unfoldable pub call_method :
      Server W
      → Option String
      → String
      → Fields J
      → Option J
      → String
      → ℕ
      → Option (Response J) × Server W
  unfolding serve
  call_method server id method params meta new_id now =
      if str_eq method "system.handshake"
      then elim (handshake values library services server params new_id) [
        | err e ↦ (finish id (err e), server)
        | ok (v, after) ↦ (finish id (ok v), after)
      ]
      else if not (is_authorised server)
      then (some (fails id "-32001" "IPC_SESSION_INVALID"), server)
      else serve server id method params meta now

  unfoldable pub dispatch : Server W → Fields J → String → ℕ → Option (Response J) × Server W
  unfolding call_method
  dispatch server request new_id now =
      if not (elim (text_at values "jsonrpc" request) [ none ↦ false | some s ↦ str_eq s "2.0" ])
      then (some (fails none "-32600" "Invalid request."), server)
      else elim (request_id values request) [
        | none ↦ (some (fails none "-32600" "Invalid request id."), server)
        | some id ↦ elim (text_at values "method" request) [
          | none ↦ (some (fails id "-32602" "Invalid method params."), server)
          | some method ↦ elim (request_params values request) [
            | none ↦ (some (fails id "-32602" "Invalid method params."), server)
            | some params ↦ call_method server id method params (lookup "meta" request) new_id now
          ]
        ]
      ]

-- What happens at the socket.
pub data ServerEvent (J : Type 0) : Type 0 where
  connects : String → ServerEvent J
  requests : Fields J → String → ℕ → ServerEvent J
  disconnects : ServerEvent J
  stops : ServerEvent J

module _ {J W : Type 0} (values : Values J) (library : Library J) (services : Services J W) where
  unfoldable pub serve_event : Server W → ServerEvent J → Server W
  serve_event server (connects new_id) = connect server new_id
  serve_event server (requests request new_id now) =
      (dispatch values library services server request new_id now).1
  serve_event server disconnects = disconnect server
  serve_event server stops = stop server

  unfoldable pub serve_events : Server W → List (ServerEvent J) → Server W
  serve_events server [] = server
  serve_events server (e ∷ es) = serve_events (serve_event server e) es
