-- ===== src/Rpc/Server/Tests.antt =====
-- Runs of sidecar/ibreeze/rpc/production_server.py, and instances of its theorems.
use i_breeze.Prelude.{
  ℕ, ◌+◌, String, str_eq, true, false, not, ◌≡◌, Option, none, some, List, [], ◌∷◌, map, lookup,
  refl, sym, subst, arith, Memᴰ, ◌⊎◌,
}
use i_breeze.Result.{ok, ok-injective}
use i_breeze.Rpc.Server.{Fields, Values, Library, Services, Server, fails}
use i_breeze.Rpc.Server.Context.{
  context_from_meta, context_of, window_id, idempotency_of, deadline_of,
}
use i_breeze.Rpc.Server.Handshake.{
  handshake, authenticate, check_protocol, check_launch, prove, check_proof,
}
use i_breeze.Rpc.Server.Dispatch.{
  is_authorised, connect, finish, command, serve, call_method, request_id, request_params, text_at,
  dispatch, ServerEvent, connects, requests, disconnects, serve_event, serve_events,
}
use i_breeze.Rpc.Server.Access.{Proved, Unproved, serve_events-untouched}
use i_breeze.Rpc.Server.Commands.{Admitted, command-Admitted}
use i_breeze.Rpc.Server.Replies.{Reply, dispatch-Reply}

-- The values of a few requests.
data Value : Type 0 where
  nothing : Value
  one : Value
  words : String → Value
  dict : List (String × String) → Value

abbrev text_of : Value → Option String
text_of (words s) = some s
text_of _ = none

abbrev fields_of : Value → Option (Fields Value)
fields_of (dict d) = some (map (λ p. (p.0, words p.1)) d)
fields_of _ = none

abbrev values : Values Value
values = record {
  as_text = text_of;
  as_object = fields_of;
  is_none = λ v. elim v [ nothing ↦ true | one ↦ false | words s ↦ false | dict d ↦ false ];
  truthy_value =
      λ v. elim v [ nothing ↦ false | one ↦ true | words s ↦ not (str_eq s "") | dict d ↦ true ];
  str = λ v. elim v [ nothing ↦ "None" | one ↦ "1" | words s ↦ s | dict d ↦ "{}" ];
  equals_one =
      λ v. elim v [ nothing ↦ false | one ↦ true | words s ↦ str_eq s "1" | dict d ↦ false ];
  of_text = words;
  of_number = λ n. one;
  of_bool = λ b. one;
  of_fields = λ d. dict [];
}

abbrev library : Library Value
library = record {
  uuid = λ s. some s;
  instant = λ s. some (true, 9);
  strip = λ s. s;
  len = λ s. 5;
  all_code = λ s. true;
  expected_proof = λ app launch nonce. ok "right";
  compare_digest = λ t v. ok (elim (text_of v) [ none ↦ false | some s ↦ str_eq t s ]);
}

-- The application counts the commands it runs.
abbrev services : Services Value ℕ
services = record {
  has_method = λ m. str_eq m "company.create";
  dispatch = λ m params context w. (ok one, w + 1);
  validate_request = λ m params. none;
  validate_response = λ m v. none;
  method_is_write = λ m. some true;
  publish_broker_event = λ params w. (ok tt, w + 1);
  handle_notification = λ m params w. (ok tt, w + 1);
  health = λ w. ok (record { status = "healthy"; observed_at = "t"; migration_version = 1 });
  has_writer = true;
  credential_get_references = λ params w. (ok one, w);
  credential_probe_succeeded = λ params w. (ok one, w);
}

abbrev fresh : Server ℕ
fresh = record {
  app_version = "1.0";
  launch_id = "l";
  ipc_session_id = none;
  session = none;
  stopping = false;
  world = 0;
}

abbrev claims : String → List (String × String)
claims proof =
    ("app_version", "1.0")
    ∷ ("protocol_version", "1")
    ∷ ("launch_id", "l")
    ∷ ("nonce", "n")
    ∷ ("proof", proof)
    ∷ []

abbrev greets : String → Fields Value
greets proof =
    ("jsonrpc", words "2.0")
    ∷ ("id", words "h")
    ∷ ("method", words "system.handshake")
    ∷ ("params", dict (claims proof))
    ∷ []

abbrev creates : Fields Value
creates =
    ("jsonrpc", words "2.0")
    ∷ ("id", words "c")
    ∷ ("method", words "company.create")
    ∷ ("params", dict [])
    ∷ ("meta", dict (("trace_id", "t") ∷ ("ipc_session_id", "s2") ∷ ("idempotency_key", "k") ∷ []))
    ∷ []

-- A notification outside a session is answered, by an error without an id.
abbrev notifies : Fields Value
notifies = ("jsonrpc", words "2.0") ∷ ("method", words "runtime.process.output") ∷ []

open_run :
    ((serve_events values library services fresh
        (connects "s1" ∷ requests (greets "right") "s2" 1 ∷ requests creates "s3" 2 ∷ [])).world
      ≡ 1)
    × ((dispatch values library services fresh notifies "s1" 1).0
        ≡ some (fails none "-32001" "IPC_SESSION_INVALID"))
unfolding serve_events serve_event connect dispatch call_method handshake authenticate
    check_protocol check_launch prove check_proof serve command finish request_id request_params
    text_at is_authorised lookup context_from_meta context_of window_id idempotency_of deadline_of
open_run = (refl, refl)

-- A client that does not know the token.
abbrev intrudes : List (ServerEvent Value)
intrudes =
    connects "s1" ∷ requests (greets "wrong") "s2" 1 ∷ requests creates "s3" 2 ∷ disconnects ∷ []

proofless : (e : ServerEvent Value) → Memᴰ e intrudes → Unproved values library services "1.0" "l" e
unfolding request_params lookup
proofless e (Memᴰ.head q) = subst (Unproved values library services "1.0" "l") (sym q) tt
proofless e (Memᴰ.tail (Memᴰ.head q)) =
    subst (Unproved values library services "1.0" "l") (sym q) (λ params h p.
      wrong_proof (subst (Proved values library services "1.0" "l") (sym (value h)) p))
  where
    value : {u v : Fields Value} → some u ≡ some v → u ≡ v
    value h = cc

    wrong_proof :
        Proved values library services "1.0" "l" (map (λ p. (p.0, words p.1)) (claims "wrong")) → ⊥
    wrong_proof p =
        let sent : words "wrong" ≡ p.proof = one_value p.proof_sent in
        let matches : library.compare_digest "right" (words "wrong") ≡ ok true =
          subst (λ t. library.compare_digest t (words "wrong") ≡ ok true)
            (sym (ok-injective p.proof_of))
            (subst (λ v. library.compare_digest p.expected v ≡ ok true) (sym sent) p.accepted) in
        let z : false ≡ true = ok-injective matches in ground arith
      where
        one_value : {u v : Value} → some u ≡ some v → u ≡ v
        one_value h = cc
proofless e (Memᴰ.tail (Memᴰ.tail (Memᴰ.head q))) =
    subst (Unproved values library services "1.0" "l") (sym q)
      (λ params h p. no_nonce params (value h) p.nonce_sent)
  where
    value : {u v : Fields Value} → some u ≡ some v → u ≡ v
    value h = cc

    no_nonce :
        (params : Fields Value) → [] ≡ params → {n : Value} → lookup "nonce" params ≡ some n → ⊥
    no_nonce params h {n} k =
        let z : none ≡ some n = subst (λ d. lookup "nonce" d ≡ some n) (sym h) k in ground arith
proofless e (Memᴰ.tail (Memᴰ.tail (Memᴰ.tail (Memᴰ.head q)))) =
    subst (Unproved values library services "1.0" "l") (sym q) tt
proofless e (Memᴰ.tail (Memᴰ.tail (Memᴰ.tail (Memᴰ.tail i)))) = elim i [ ]

serve_events-untouched_example :
    ((serve_events values library services fresh intrudes).world ≡ 0)
    × (is_authorised (serve_events values library services fresh intrudes) ≡ false)
serve_events-untouched_example =
    serve_events-untouched values library services fresh intrudes refl proofless

-- A session that made the handshake runs a command.
abbrev greeted : Server ℕ
greeted = record fresh { ipc_session_id = some "s2"; session = some "s2" }

abbrev meta : Value
meta = dict (("trace_id", "t") ∷ ("ipc_session_id", "s2") ∷ ("idempotency_key", "k") ∷ [])

command-Admitted_example :
    ((command values library services greeted (some "c") "company.create" [] (some meta) 2).1
      ≡ greeted)
    ⊎ Admitted values library services greeted "company.create" [] 2
        (command values library services greeted (some "c") "company.create" [] (some meta) 2).1
command-Admitted_example =
    command-Admitted values library services greeted (some "c") "company.create" [] (some meta) 2

version_two : text_at values "jsonrpc" creates ≡ some "2.0"
unfolding text_at lookup
version_two = refl

id_is : request_id values creates ≡ some (some "c")
unfolding request_id lookup
id_is = refl

dispatch-Reply_example :
    Reply (some "c") (dispatch values library services greeted creates "s3" 2).0
dispatch-Reply_example =
    dispatch-Reply values library services greeted creates "s3" 2 (some "c") version_two id_is
