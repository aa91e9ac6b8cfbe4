-- ===== src/Rpc/Server/Context.antt =====
-- `_context_from_meta` of sidecar/ibreeze/rpc/production_server.py.
use i_breeze.Prelude.{
  ℕ, leb, String, str_eq, Bool, true, not, Option, none, some, List, [], ◌∷◌, lookup, keys, all,
  contains, if◌then◌else◌,
}
use i_breeze.Result.{Result, ok, err, guard, ◌>>=◌, ◌>>◌}
use i_breeze.Rpc.Server.{Fields, PyError, value_error, Values, Library, CommandContext}

-- The keys that a `meta` may have.
abbrev pub allowed_meta : List String
allowed_meta =
    "trace_id" ∷ "ipc_session_id" ∷ "window_session_id" ∷ "idempotency_key" ∷ "deadline_at" ∷ []

-- `uuid.UUID(...)`, whose exceptions become this one.
abbrev pub or_invalid {ℓ} : {A : Type ℓ} → Option A → Result PyError A
or_invalid none = err (value_error "VALIDATION_FAILED")
or_invalid (some a) = ok a

module _ {J : Type 0} (values : Values J) (library : Library J) where
  -- `value.get(key)`: None for a missing key
  abbrev pub present : Option J → Option J
  present none = none
  present (some v) = if values.is_none v then none else some v

  -- `str(value.get(key))`
  abbrev pub str_of : Option J → String
  str_of none = "None"
  str_of (some v) = values.str v

  abbrev pub text_field : Fields J → String → Option String
  text_field fields key = elim (lookup key fields) [ none ↦ none | some v ↦ values.as_text v ]

  -- `uuid.UUID(window) if window else None`
  unfoldable pub window_id : Option J → Result PyError (Option String)
  window_id none = ok none
  window_id (some v) = if not (values.truthy_value v) then ok none else elim (values.as_text v) [
    | none ↦ err (value_error "VALIDATION_FAILED")
    | some s ↦ do w ← or_invalid (library.uuid s); ok (some w)
  ]

  -- The tests of the idempotency key, given what `method_is_write` says of the method.
  unfoldable pub idempotency_of : Option J → Option Bool → Result PyError (Option String)
  idempotency_of none (some true) = err (value_error "IDEMPOTENCY_KEY_REQUIRED")
  idempotency_of none _ = ok none
  idempotency_of (some v) is_write = do
    valid ← or_invalid (library.uuid (values.str v))
    elim is_write [
      | none ↦ ok (some (values.str v))
      | some w ↦
          if w then ok (some (values.str v)) else err (value_error "IDEMPOTENCY_KEY_NOT_ALLOWED")
    ]

  unfoldable pub deadline_of : Option String → ℕ → Result PyError (Option ℕ)
  deadline_of none now = ok none
  deadline_of (some s) now = do
    instant ← or_invalid (library.instant s)
    guard instant.0 (value_error "VALIDATION_FAILED")
    guard (not (leb instant.1 now)) (value_error "IPC_DEADLINE_EXCEEDED")
    ok (some instant.1)

  -- The context of a session that is the right one.
  unfoldable pub context_of :
      Fields J → String → String → Option Bool → ℕ → Result PyError CommandContext
  unfolding window_id idempotency_of deadline_of
  context_of meta trace_id ipc_id is_write now = do
    window ← window_id (lookup "window_session_id" meta)
    idempotency_key ← idempotency_of (present (lookup "idempotency_key" meta)) is_write
    deadline ← deadline_of (text_field meta "deadline_at") now
    ok (record {
      trace_id = trace_id;
      ipc_session_id = ipc_id;
      window_session_id = window;
      idempotency_key = idempotency_key;
      deadline_at = deadline;
    })

  unfoldable pub context_from_meta :
      Option J → String → Option Bool → ℕ → Result PyError CommandContext
  unfolding context_of
  context_from_meta value session is_write now = do
    meta ← or_invalid (elim value [ none ↦ none | some v ↦ values.as_object v ])
    trace ← or_invalid (text_field meta "trace_id")
    guard (all (λ k. contains k allowed_meta) (keys meta)) (value_error "VALIDATION_FAILED")
    trace_id ← or_invalid (library.uuid trace)
    ipc_id ← or_invalid (library.uuid (str_of (lookup "ipc_session_id" meta)))
    guard (str_eq ipc_id session) (value_error "IPC_SESSION_INVALID")
    context_of meta trace_id ipc_id is_write now
