-- ===== src/Rpc/Server/Replies.antt =====
-- What a client of sidecar/ibreeze/rpc/production_server.py is answered.
use i_breeze.Prelude.{
  ℕ, String, str_eq, ◌≡◌, Option, none, some, [], ◌∷◌, lookup, is_in, contains, if◌then◌else◌, sym,
  ◌∙◌, subst, Bool-cases, Option-cases, inl, inr, arith,
}
use i_breeze.Result.{Result, ok, err}
use i_breeze.Rpc.Server.{
  Fields, PyError, value_error, Values, Library, HealthReport, CommandContext, Services, Server,
  Response, answers, fails,
}
use i_breeze.Rpc.Server.Context.{context_from_meta}
use i_breeze.Rpc.Server.Dispatch.{
  host_methods, finish, checked_answer, run_handler, command, serve, call_method, request_id,
  text_at, dispatch,
}
use i_breeze.Rpc.Server.Cases.{
  Handled, not_json_rpc, bad_id, bad_params, called, Called, shook, refused, outside, served,
  call_method-Called, dispatch-Handled,
}

-- A request gets its result or an error under its id; a notification gets nothing, or an error without
-- an id.
pub data Reply {J : Type 0} : Option String → Option (Response J) → Type 0 where
  answered : (i : String) (v : J) → Reply (some i) (some (answers (some i) v))
  failed : (i c e : String) → Reply (some i) (some (fails (some i) c e))
  silent : Reply none none
  complained : (c e : String) → Reply none (some (fails none c e))

module _ {J W : Type 0} (values : Values J) (library : Library J) (services : Services J W) where
  fails-Reply : (id : Option String) (c e : String) → Reply {J = J} id (some (fails id c e))
  fails-Reply none c e = complained c e
  fails-Reply (some i) c e = failed i c e

  finish-Reply :
      (id : Option String) (r : Result PyError J) → Reply id (finish values library services id r)
  unfolding finish
  finish-Reply none r = silent
  finish-Reply (some i) (ok v) = answered i v
  finish-Reply (some i) (err e) = failed i _ _

  checked_answer-Reply :
      (id : Option String) (method : String) (r : Result PyError J)
      → Reply id (checked_answer values library services id method r)
  checked_answer-Reply id method (err e) = finish-Reply id (err e)
  checked_answer-Reply id method (ok v) =
      elim (Option-cases (services.validate_response method v)) [
        | inl n ↦ rw (n, checked_answer) (finish-Reply id (ok v))
        | inr (e, s) ↦ rw (s, checked_answer) (fails-Reply id "-32603" e)
      ]

  command-Reply :
      (server : Server W) (id : Option String) (method : String) (params : Fields J)
      (meta : Option J) (now : ℕ)
      → Reply id (command values library services server id method params meta now).0
  unfolding command
  command-Reply server id method params meta now = elim (Bool-cases (services.has_method method)) [
    | inr r ↦ rw r (fails-Reply id "-32601" _)
    | inl r ↦ elim (Option-cases (services.validate_request method params)) [
      | inr (e, s) ↦ rw (r, s) (fails-Reply id "-32602" e)
      | inl n ↦
          rw (r, n)
            (go (
              context_from_meta values library meta (elim server.session [ none ↦ "" | some s ↦ s ])
                (services.method_is_write method) now))
    ]
  ]
    where
      go :
          (c : Result PyError CommandContext)
          → Reply id
              (elim c as (λ _. Option (Response J) × Server W) [
                | err e ↦ (finish values library services id (err e), server)
                | ok context ↦
                    if is_in "idempotency_key" params
                    then (
                      finish values library services id
                          (err (value_error "IDEMPOTENCY_KEY_MUST_BE_IN_META")),
                      server,
                    )
                    else run_handler values library services server id method params context
              ]).0
      go (err e) = finish-Reply id (err e)
      go (ok context) = elim (Bool-cases (is_in "idempotency_key" params)) [
        | inl k ↦ rw k (finish-Reply id _)
        | inr k ↦ rw k (checked_answer-Reply id method _)
      ]

  serve-Reply :
      (server : Server W) (id : Option String) (method : String) (params : Fields J)
      (meta : Option J) (now : ℕ)
      → Reply id (serve values library services server id method params meta now).0
  unfolding serve
  serve-Reply server id method params meta now = elim (Bool-cases (contains method host_methods)) [
    | inl a ↦ rw a (finish-Reply id _)
    | inr a ↦ elim (Bool-cases (str_eq method "system.health")) [
      | inl b ↦ rw (a, b) (healthy (services.health server.world))
      | inr b ↦ elim (Bool-cases (str_eq method "system.shutdown")) [
        | inl c ↦ rw (a, b, c) (finish-Reply id _)
        | inr c ↦ elim (Bool-cases (str_eq method "credential.getReferences")) [
          | inl d ↦ rw (a, b, c, d) (finish-Reply id _)
          | inr d ↦ elim (Bool-cases (str_eq method "credential.probeSucceeded")) [
            | inl e ↦ rw (a, b, c, d, e) (finish-Reply id _)
            | inr e ↦ rw (a, b, c, d, e) (command-Reply server id method params meta now)
          ]
        ]
      ]
    ]
  ]
    where
      healthy :
          (r : Result PyError HealthReport)
          → Reply id
              (elim r as (λ _. Option (Response J) × Server W) [
                | err e ↦ (finish values library services id (err e), server)
                | ok report ↦ (
                  finish values library services id (
                      ok (
                        values.of_fields (
                          ("status", values.of_text report.status)
                          ∷ ("observed_at", values.of_text report.observed_at)
                          ∷ ("migration_version", values.of_number report.migration_version)
                          ∷ []))),
                  server,
                )
              ]).0
      healthy (err e) = finish-Reply id (err e)
      healthy (ok report) = finish-Reply id _

  call_method-Reply :
      (server : Server W) (id : Option String) (method : String) (params : Fields J)
      (meta : Option J) (new_id : String) (now : ℕ) (r : Option (Response J) × Server W)
      → Called values library services server id method params meta new_id now r
      → Reply id r.0
  call_method-Reply server id method params meta new_id now r (shook v after h) =
      finish-Reply id (ok v)
  call_method-Reply server id method params meta new_id now r (refused e) = finish-Reply id (err e)
  call_method-Reply server id method params meta new_id now r (outside e) =
      fails-Reply id "-32001" e
  call_method-Reply server id method params meta new_id now r (served a) =
      serve-Reply server id method params meta now

  -- Each request of JSON-RPC 2.0 whose id is a text or None is handled to its end: with a text it is
  -- answered under that id, once, by a result or an error, whatever the method, the parameters and the
  -- session are and whatever raises; without one nothing is sent but an error that has no id.
  pub dispatch-Reply :
      (server : Server W) (request : Fields J) (new_id : String) (now : ℕ) (id : Option String)
      → text_at values "jsonrpc" request ≡ some "2.0"
      → request_id values request ≡ some id
      → Reply id (dispatch values library services server request new_id now).0
  dispatch-Reply server request new_id now id v h =
      go _ (dispatch-Handled values library services server request new_id now)
    where
      same : {i j : Option String} → ◌≡◌ {A = Option (Option String)} (some i) (some j) → i ≡ j
      same h = cc

      go :
          (r : Option (Response J) × Server W)
          → Handled values library services server request new_id now r
          → Reply id r.0
      go r (not_json_rpc e n) = absurd (n v)
      go r (bad_id e n) = let z : none ≡ some id = sym n ∙ h in ground arith
      go r (bad_params i e k) =
          subst (λ j. Reply {J = J} j (some (fails i "-32602" e))) (same (sym k ∙ h))
            (fails-Reply i "-32602" e)
      go r (called i method params k p) =
          let called_r =
            call_method values library services server i method params (lookup "meta" request)
              new_id now in
          subst (λ j. Reply j called_r.0) (same (sym k ∙ h))
            (call_method-Reply server i method params (lookup "meta" request) new_id now called_r (
              call_method-Called values library services server i method params
                (lookup "meta" request) new_id now))
