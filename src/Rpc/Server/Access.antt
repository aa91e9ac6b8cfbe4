-- ===== src/Rpc/Server/Access.antt =====
-- Who gets through to the application: sidecar/ibreeze/rpc/production_server.py.
use i_breeze.Prelude.{
  ℕ, String, true, false, ◌≡◌, Option, none, some, List, [], ◌∷◌, lookup, refl, sym, ap, ◌∙◌, subst,
  arith, Memᴰ,
}
use i_breeze.Result.{ok, guard, ◌>>=◌, bind-Ran, then-Ran, guard-Ran}
use i_breeze.Rpc.Server.{Fields, value_error, Values, Library, Services, Server, Response}
use i_breeze.Rpc.Server.Handshake.{
  check_proof, prove, check_launch, check_protocol, authenticate, handshake, get_item,
}
use i_breeze.Rpc.Server.Cases.{
  Handled, not_json_rpc, bad_id, bad_params, called, Called, shook, refused, outside, served,
  call_method-Called, dispatch-Handled,
}
use i_breeze.Rpc.Server.Dispatch.{
  is_authorised, connect, call_method, request_params, ServerEvent, connects, requests, disconnects,
  stops, serve_event, serve_events,
}

module _ {J W : Type 0} (values : Values J) (library : Library J) (services : Services J W) where
  -- The parameters carry a nonce and a proof that is accepted for it.
  pub record Proved (app_version launch_id : String) (params : Fields J) : Type 0 where
    pub nonce : J
    pub proof : J
    pub expected : String
    pub nonce_sent : lookup "nonce" params ≡ some nonce
    pub proof_sent : lookup "proof" params ≡ some proof
    pub proof_of : library.expected_proof app_version launch_id nonce ≡ ok expected
    pub accepted : library.compare_digest expected proof ≡ ok true

  get_item-ok : {A : Type 0} (o : Option A) {a : A} → get_item o ≡ ok a → o ≡ some a
  get_item-ok none h = cc
  get_item-ok (some b) h = cc

  check_proof-accepted :
      (app launch : String) (nonce proof : J)
      → check_proof values library services app launch nonce proof ≡ ok tt
      → (t : String) × (library.expected_proof app launch nonce ≡ ok t)
        × (library.compare_digest t proof ≡ ok true)
  unfolding check_proof
  check_proof-accepted app launch nonce proof h =
      let x =
        bind-Ran (library.expected_proof app launch nonce)
          (λ t.
            library.compare_digest t proof >>= λ m. guard m (value_error "AUTHENTICATION_FAILED"))
          h in
      let y =
        bind-Ran (library.compare_digest x.value proof)
          (λ m. guard m (value_error "AUTHENTICATION_FAILED")) x.after in
      (
        x.value,
        x.first,
        y.first ∙ ap ok (guard-Ran y.value (value_error "AUTHENTICATION_FAILED") y.after),
      )

  prove-Proved :
      (app launch : String) (params : Fields J)
      → prove values library services app launch params ≡ ok tt
      → Proved app launch params
  unfolding prove
  prove-Proved app launch params h =
      let x =
        bind-Ran (get_item (lookup "nonce" params))
          (λ n. get_item (lookup "proof" params) >>= λ p.
            check_proof values library services app launch n p)
          h in
      let y =
        bind-Ran (get_item (lookup "proof" params))
          (λ p. check_proof values library services app launch x.value p) x.after in
      let z = check_proof-accepted app launch x.value y.value y.after in
      record {
        nonce = x.value;
        proof = y.value;
        expected = z.0;
        nonce_sent = get_item-ok (lookup "nonce" params) x.first;
        proof_sent = get_item-ok (lookup "proof" params) y.first;
        proof_of = z.1;
        accepted = z.2;
      }

  authenticate-Proved :
      (app launch : String) (params : Fields J)
      → authenticate values library services app launch params ≡ ok tt
      → Proved app launch params
  unfolding authenticate
  authenticate-Proved app launch params h = prove-Proved app launch params (
      (then-Ran (check_launch values library services app launch params) _
        (then-Ran (check_protocol values library services params) _
          (then-Ran (guard _ _) _ h).1).1).1)

  -- What a handshake that returned has passed, and what it changed.
  handshake-Proved :
      (server after : Server W) (params : Fields J) (new_id : String) (v : J)
      → handshake values library services server params new_id ≡ ok (v, after)
      → Proved server.app_version server.launch_id params
  unfolding handshake
  handshake-Proved server after params new_id v h =
      authenticate-Proved server.app_version server.launch_id params (
        (then-Ran (authenticate values library services server.app_version server.launch_id params)
          _ (then-Ran (guard _ _) _ h).1).0.1)

  -- A socket that nobody has authenticated.
  record Untouched (server server' : Server W) : Type 0 where
    outside : server'.ipc_session_id ≡ none
    world : server'.world ≡ server.world
    app_version : server'.app_version ≡ server.app_version
    launch_id : server'.launch_id ≡ server.launch_id

  same_server : (server : Server W) → server.ipc_session_id ≡ none → Untouched server server
  same_server server n = record { outside = n; world = refl; app_version = refl; launch_id = refl }

  outside-unauthorised :
      (server : Server W) → server.ipc_session_id ≡ none → is_authorised server ≡ false
  unfolding is_authorised
  outside-unauthorised server n = rw n refl

  -- No request in the history carries a proof that is accepted.
  abbrev pub Unproved : String → String → ServerEvent J → Type 0
  Unproved app launch (requests request new_id now) =
      (params : Fields J)
      → request_params values request ≡ some params
      → Proved app launch params
      → ⊥
  Unproved app launch _ = Unit {0}

  call_method-Untouched :
      (server : Server W) (id : Option String) (method : String) (params : Fields J)
      (meta : Option J) (new_id : String) (now : ℕ) (r : Option (Response J) × Server W)
      → server.ipc_session_id ≡ none
      → (Proved server.app_version server.launch_id params → ⊥)
      → Called values library services server id method params meta new_id now r
      → Untouched server r.1
  call_method-Untouched server id method params meta new_id now r n u (shook v after h) =
      absurd (u (handshake-Proved server after params new_id v h))
  call_method-Untouched server id method params meta new_id now r n u (refused e) =
      same_server server n
  call_method-Untouched server id method params meta new_id now r n u (outside e) =
      same_server server n
  call_method-Untouched server id method params meta new_id now r n u (served a) =
      let z : true ≡ false = sym a ∙ outside-unauthorised server n in ground arith

  dispatch-Untouched :
      (server : Server W) (request : Fields J) (new_id : String) (now : ℕ)
      (r : Option (Response J) × Server W)
      → server.ipc_session_id ≡ none
      → Unproved server.app_version server.launch_id (requests request new_id now)
      → Handled values library services server request new_id now r
      → Untouched server r.1
  dispatch-Untouched server request new_id now r n u (not_json_rpc e h) = same_server server n
  dispatch-Untouched server request new_id now r n u (bad_id e h) = same_server server n
  dispatch-Untouched server request new_id now r n u (bad_params id e h) = same_server server n
  dispatch-Untouched server request new_id now r n u (called id method params h k) =
      call_method-Untouched server id method params (lookup "meta" request) new_id now
        (call_method values library services server id method params (lookup "meta" request) new_id
          now)
        n (u params k)
        (call_method-Called values library services server id method params (lookup "meta" request)
          new_id now)

  serve_event-Untouched :
      (server : Server W) (e : ServerEvent J)
      → server.ipc_session_id ≡ none
      → Unproved server.app_version server.launch_id e
      → Untouched server (serve_event values library services server e)
  unfolding serve_event connect
  serve_event-Untouched server (connects new_id) n u = connected server.session
    where
      connected :
          (o : Option String)
          → Untouched server (elim o as (λ _. Server W) [
            | none ↦ record server { session = some new_id }
            | some _ ↦ server
          ])
      connected none = record { outside = n; world = refl; app_version = refl; launch_id = refl }
      connected (some s) = same_server server n
  serve_event-Untouched server (requests request new_id now) n u =
      dispatch-Untouched server request new_id now _ n u
        (dispatch-Handled values library services server request new_id now)
  serve_event-Untouched server disconnects n u = record {
    outside = refl;
    world = refl;
    app_version = refl;
    launch_id = refl;
  }
  serve_event-Untouched server stops n u = record {
    outside = refl;
    world = refl;
    app_version = refl;
    launch_id = refl;
  }

  -- On a socket without a handshake, whatever clients connect, send and disconnect: as long as no request
  -- carries a nonce with a proof that is accepted for it, nothing reaches the application, whose state is
  -- what it was, and nobody is authorised.
  pub serve_events-untouched :
      (server : Server W) (es : List (ServerEvent J))
      → server.ipc_session_id ≡ none
      → ((e : ServerEvent J) → Memᴰ e es → Unproved server.app_version server.launch_id e)
      → ((serve_events values library services server es).world ≡ server.world)
        × (is_authorised (serve_events values library services server es) ≡ false)
  unfolding serve_events
  serve_events-untouched server [] n u = (refl, outside-unauthorised server n)
  serve_events-untouched server (e ∷ es) n u =
      let one = serve_event-Untouched server e n (u e (Memᴰ.head refl)) in
      let next = serve_event values library services server e in
      let more = serve_events-untouched next es one.outside (λ x i.
        subst (λ a. Unproved a next.launch_id x) (sym one.app_version)
          (subst (λ l. Unproved server.app_version l x) (sym one.launch_id) (u x (Memᴰ.tail i)))) in
      (more.0 ∙ one.world, more.1)
