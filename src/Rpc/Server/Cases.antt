-- ===== src/Rpc/Server/Cases.antt =====
-- The branches of `_dispatch` of sidecar/ibreeze/rpc/production_server.py.
use i_breeze.Prelude.{
  ℕ, String, str_eq, Bool, true, false, not, ◌≡◌, eq_iff, Option, none, some, lookup, if◌then◌else◌,
  refl, sym, ◌∙◌, Bool-cases, inl, inr, arith,
}
use i_breeze.Result.{Result, ok, err}
use i_breeze.Rpc.Server.{Fields, PyError, Values, Library, Services, Server, Response, fails}
use i_breeze.Rpc.Server.Handshake.{handshake}
use i_breeze.Rpc.Server.Dispatch.{
  is_authorised, finish, serve, call_method, request_id, request_params, text_at, dispatch,
}

module _ {J W : Type 0} (values : Values J) (library : Library J) (services : Services J W) where
  -- What a request comes to: a malformed one, one with no method or no dict of params, and a call.
  pub data Handled (server : Server W) (request : Fields J) (new_id : String) (now : ℕ)
      : Option (Response J) × Server W → Type 0 where
    not_json_rpc :
        (e : String)
        → (text_at values "jsonrpc" request ≡ some "2.0" → ⊥)
        → Handled server request new_id now (some (fails none "-32600" e), server)
    bad_id :
        (e : String)
        → request_id values request ≡ none
        → Handled server request new_id now (some (fails none "-32600" e), server)
    bad_params :
        (id : Option String) (e : String)
        → request_id values request ≡ some id
        → Handled server request new_id now (some (fails id "-32602" e), server)
    called :
        (id : Option String) (method : String) (params : Fields J)
        → request_id values request ≡ some id
        → request_params values request ≡ some params
        → Handled server request new_id now (
            call_method values library services server id method params
              (lookup "meta" request)
              new_id
              now)

  -- What a call comes to: a handshake that succeeded, one that raised, a call without a handshake, and
  -- one of a session that made it.
  pub data Called (server : Server W) (id : Option String) (method : String) (params : Fields J)
      (meta : Option J) (new_id : String) (now : ℕ) : Option (Response J) × Server W → Type 0 where
    shook :
        (v : J) (after : Server W)
        → handshake values library services server params new_id ≡ ok (v, after)
        → Called server id method params meta new_id now
            (finish values library services id (ok v), after)
    refused :
        (e : PyError)
        → Called server id method params meta new_id now
            (finish values library services id (err e), server)
    outside :
        (e : String)
        → Called server id method params meta new_id now (some (fails id "-32001" e), server)
    served :
        is_authorised server ≡ true
        → Called server id method params meta new_id now
            (serve values library services server id method params meta now)

  pub call_method-Called :
      (server : Server W) (id : Option String) (method : String) (params : Fields J)
      (meta : Option J) (new_id : String) (now : ℕ)
      → Called server id method params meta new_id now
          (call_method values library services server id method params meta new_id now)
  unfolding call_method
  call_method-Called server id method params meta new_id now =
      elim (Bool-cases (str_eq method "system.handshake")) [
        | inl e ↦ rw e (go (handshake values library services server params new_id) refl)
        | inr e ↦ elim (Bool-cases (is_authorised server)) [
          | inl a ↦ rw (e, a) (served a)
          | inr a ↦ rw (e, a) (outside _)
        ]
      ]
    where
      go :
          (r : Result PyError (J × Server W))
          → handshake values library services server params new_id ≡ r
          → Called server id method params meta new_id now
              (elim r as (λ _. Option (Response J) × Server W) [
                | err e ↦ (finish values library services id (err e), server)
                | ok (v, after) ↦ (finish values library services id (ok v), after)
              ])
      go (err e) h = refused e
      go (ok (v, after)) h = shook v after h

  pub dispatch-Handled :
      (server : Server W) (request : Fields J) (new_id : String) (now : ℕ)
      → Handled server request new_id now
          (dispatch values library services server request new_id now)
  unfolding dispatch
  dispatch-Handled server request new_id now = versioned (text_at values "jsonrpc" request) refl
    where
      called_with :
          Option String → Option String → Option (Fields J) → Option (Response J) × Server W
      called_with id m p = elim m [
        | none ↦ (some (fails id "-32602" "Invalid method params."), server)
        | some method ↦ elim p [
          | none ↦ (some (fails id "-32602" "Invalid method params."), server)
          | some params ↦
              call_method values library services server id method params (lookup "meta" request)
                new_id now
        ]
      ]

      with_id : Option (Option String) → Option (Response J) × Server W
      with_id r = elim r [
        | none ↦ (some (fails none "-32600" "Invalid request id."), server)
        | some id ↦ called_with id (text_at values "method" request) (request_params values request)
      ]

      methods :
          (id : Option String)
          → request_id values request ≡ some id
          → (m : Option String) (p : Option (Fields J)) → request_params values request ≡ p
          → Handled server request new_id now (called_with id m p)
      methods id h none p k = bad_params id _ h
      methods id h (some m) none k = bad_params id _ h
      methods id h (some m) (some p) k = called id m p h k

      ids :
          (r : Option (Option String))
          → request_id values request ≡ r
          → Handled server request new_id now (with_id r)
      ids none h = bad_id _ h
      ids (some id) h =
          methods id h (text_at values "method" request) (request_params values request) refl

      versioned :
          (o : Option String)
          → text_at values "jsonrpc" request ≡ o
          → Handled server request new_id now (
              if not (elim o as (λ _. Bool) [ none ↦ false | some s ↦ str_eq s "2.0" ])
              then (some (fails none "-32600" "Invalid request."), server)
              else with_id (request_id values request))
      versioned none h =
          not_json_rpc _ (λ k. absurd (let z : none ≡ some "2.0" = sym h ∙ k in ground arith))
      versioned (some s) h = elim (Bool-cases (str_eq s "2.0")) [
        | inl e ↦ rw e (ids (request_id values request) refl)
        | inr e ↦ rw e (not_json_rpc _ (λ k. other s e (sym h ∙ k)))
      ]
        where
          other : (s : String) → str_eq s "2.0" ≡ false → some s ≡ some "2.0" → ⊥
          other s e k = let z : s ≡ "2.0" = text k in ground (arith, eq_iff s "2.0")
            where
              text : {s t : String} → some s ≡ some t → s ≡ t
              text k = cc
