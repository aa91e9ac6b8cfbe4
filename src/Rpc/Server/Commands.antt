-- ===== src/Rpc/Server/Commands.antt =====
-- The commands that sidecar/ibreeze/rpc/production_server.py lets through.
use i_breeze.Prelude.{
  ℕ, ◌<◌, leb, String, str_eq, Bool, true, false, not, ◌≡◌, eq_iff, Option, none, some, lookup,
  is_in, contains, keys, all, if◌then◌else◌, refl, ap, ◌∙◌, subst, Bool-cases, inl, inr, arith, ◌⊎◌,
}
use i_breeze.Result.{Result, ok, err, guard, bind-Ran, then-Ran, guard-Ran, ok-injective}
use i_breeze.Rpc.Server.{
  Fields, PyError, value_error, Values, Library, Services, Server, CommandContext, Response, fails,
}
use i_breeze.Rpc.Server.Context.{
  allowed_meta, or_invalid, present, str_of, text_field, window_id, idempotency_of, deadline_of,
  context_of, context_from_meta,
}
use i_breeze.Rpc.Server.Dispatch.{finish, run_handler, command}

-- A write has an idempotency key, and a read has none.
pub data KeyRule : Option Bool → Option String → Type 0 where
  write_keyed : {key : String} → KeyRule (some true) (some key)
  read_unkeyed : KeyRule (some false) none
  unknown : {key : Option String} → KeyRule none key

module _ {J W : Type 0} (values : Values J) (library : Library J) (services : Services J W) where
  idempotency_of-KeyRule :
      (o : Option J) (is_write : Option Bool) (key : Option String)
      → idempotency_of values library o is_write ≡ ok key
      → KeyRule is_write key
  unfolding idempotency_of
  idempotency_of-KeyRule none none key h = unknown
  idempotency_of-KeyRule none (some true) key h = cc
  idempotency_of-KeyRule none (some false) key h =
      subst (KeyRule (some false)) (ok-injective h) read_unkeyed
  idempotency_of-KeyRule (some v) none key h = unknown
  idempotency_of-KeyRule (some v) (some true) key h =
      subst (KeyRule (some true))
        (ok-injective (bind-Ran (or_invalid (library.uuid (values.str v))) _ h).after) write_keyed
  idempotency_of-KeyRule (some v) (some false) key h =
      let z = (bind-Ran (or_invalid (library.uuid (values.str v))) _ h).after in cc

  deadline_of-future :
      (o : Option String) (now d : ℕ) → deadline_of values library o now ≡ ok (some d) → now < d
  unfolding deadline_of
  deadline_of-future none now d h = let z : none ≡ some d = ok-injective h in ground arith
  deadline_of-future (some s) now d h =
      let instant = bind-Ran (or_invalid (library.instant s)) _ h in
      let zone =
        then-Ran (guard instant.value.0 (value_error "VALIDATION_FAILED")) _ instant.after in
      let later =
        then-Ran (guard (not (leb instant.value.1 now)) (value_error "IPC_DEADLINE_EXCEEDED")) _
          zone.1 in
      let z : some instant.value.1 ≡ some d = ok-injective later.1 in
      let t =
        guard-Ran (not (leb instant.value.1 now)) (value_error "IPC_DEADLINE_EXCEEDED") later.0.1 in
      ground arith

  -- What the context of a command guarantees.
  pub record Checked (session : String) (is_write : Option Bool) (now : ℕ)
      (context : CommandContext) : Type 0 where
    pub session_is : context.ipc_session_id ≡ session
    pub key_rule : KeyRule is_write context.idempotency_key
    pub in_time : (d : ℕ) → context.deadline_at ≡ some d → now < d

  context_of-Checked :
      (meta : Fields J) (trace_id ipc_id : String) (is_write : Option Bool) (now : ℕ)
      (context : CommandContext)
      → context_of values library meta trace_id ipc_id is_write now ≡ ok context
      → Checked ipc_id is_write now context
  unfolding context_of
  context_of-Checked meta trace_id ipc_id is_write now context h =
      let window = bind-Ran (window_id values library (lookup "window_session_id" meta)) _ h in
      let key =
        bind-Ran
          (idempotency_of values library (present values library (lookup "idempotency_key" meta))
            is_write)
          _ window.after in
      let deadline =
        bind-Ran (deadline_of values library (text_field values library meta "deadline_at") now) _
          key.after in
      subst (Checked ipc_id is_write now) (ok-injective deadline.after) (record {
        session_is = refl;
        key_rule =
            idempotency_of-KeyRule (present values library (lookup "idempotency_key" meta)) is_write
              key.value key.first;
        in_time = λ d e.
            deadline_of-future (text_field values library meta "deadline_at") now d
              (deadline.first ∙ ap ok e);
      })

  context_from_meta-Checked :
      (value : Option J) (session : String) (is_write : Option Bool) (now : ℕ)
      (context : CommandContext)
      → context_from_meta values library value session is_write now ≡ ok context
      → Checked session is_write now context
  unfolding context_from_meta
  context_from_meta-Checked value session is_write now context h =
      let meta =
        bind-Ran (or_invalid (elim value [ none ↦ none | some v ↦ values.as_object v ])) _ h in
      let trace =
        bind-Ran (or_invalid (text_field values library meta.value "trace_id")) _ meta.after in
      let known =
        then-Ran
          (guard (all (λ k. contains k allowed_meta) (keys meta.value))
            (value_error "VALIDATION_FAILED"))
          _ trace.after in
      let trace_id = bind-Ran (or_invalid (library.uuid trace.value)) _ known.1 in
      let ipc =
        bind-Ran
          (or_invalid (library.uuid (str_of values library (lookup "ipc_session_id" meta.value)))) _
          trace_id.after in
      let bound =
        then-Ran (guard (str_eq ipc.value session) (value_error "IPC_SESSION_INVALID")) _
          ipc.after in
      subst (λ s. Checked s is_write now context)
        ((eq_iff ipc.value session).0
          (guard-Ran (str_eq ipc.value session) (value_error "IPC_SESSION_INVALID") bound.0.1))
        (context_of-Checked meta.value trace_id.value ipc.value is_write now context bound.1)

  -- A command that reached its handler, and what the handler made of the application.
  pub record Admitted (server : Server W) (method : String) (params : Fields J) (now : ℕ)
      (after : Server W) : Type 0 where
    pub context : CommandContext
    pub registered : services.has_method method ≡ true
    pub valid : services.validate_request method params ≡ none
    pub unkeyed : is_in "idempotency_key" params ≡ false
    pub checked :
        Checked
          (elim server.session [ none ↦ "" | some s ↦ s ])
          (services.method_is_write method)
          now
          context
    pub effect_is :
        after ≡ record server { world = (services.dispatch method params context server.world).1 }

  -- A command leaves the server as it is, or its handler ran: then the method is registered, its parameters
  -- are valid and carry no idempotency key, and the context that the handler got is one of this session,
  -- has an idempotency key if the method writes and none if it reads, and a deadline, if any, in the future.
  pub command-Admitted :
      (server : Server W) (id : Option String) (method : String) (params : Fields J)
      (meta : Option J) (now : ℕ)
      → ((command values library services server id method params meta now).1 ≡ server)
        ⊎ Admitted server method params now
            (command values library services server id method params meta now).1
  unfolding command
  command-Admitted server id method params meta now =
      elim (Bool-cases (services.has_method method)) [
        | inr r ↦ rw r (inl refl)
        | inl r ↦ rw r (validated (services.validate_request method params) refl r)
      ]
    where
      session : String
      session = elim server.session [ none ↦ "" | some s ↦ s ]

      ran : CommandContext → Option (Response J) × Server W
      ran context =
          if is_in "idempotency_key" params
          then (
            finish values library services id (err (value_error "IDEMPOTENCY_KEY_MUST_BE_IN_META")),
            server,
          )
          else run_handler values library services server id method params context

      with_context : Result PyError CommandContext → Option (Response J) × Server W
      with_context c = elim c [
        | err e ↦ (finish values library services id (err e), server)
        | ok context ↦ ran context
      ]

      contexts :
          (c : Result PyError CommandContext)
          → context_from_meta values library meta session (services.method_is_write method) now ≡ c
          → services.has_method method ≡ true
          → services.validate_request method params ≡ none
          → ((with_context c).1 ≡ server) ⊎ Admitted server method params now (with_context c).1
      contexts (err e) h r v = inl refl
      contexts (ok context) h r v = elim (Bool-cases (is_in "idempotency_key" params)) [
        | inl k ↦ inl (rw k refl)
        | inr k ↦ inr (record {
          context = context;
          registered = r;
          valid = v;
          unkeyed = k;
          checked =
              context_from_meta-Checked meta session (services.method_is_write method) now context
                h;
          effect_is = rw k refl;
        })
      ]

      validated :
          (o : Option String)
          → services.validate_request method params ≡ o
          → services.has_method method ≡ true
          → ((elim o as (λ _. Option (Response J) × Server W) [
            | some e ↦ (some (fails id "-32602" e), server)
            | none ↦ with_context (
                context_from_meta values library meta session (services.method_is_write method) now)
          ]).1
              ≡ server)
            ⊎ Admitted server method params now
                (elim o as (λ _. Option (Response J) × Server W) [
                  | some e ↦ (some (fails id "-32602" e), server)
                  | none ↦ with_context (
                      context_from_meta values library meta session
                        (services.method_is_write method)
                        now)
                ]).1
      validated (some e) v r = inl refl
      validated none v r = contexts _ refl r v
