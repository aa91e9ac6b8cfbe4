-- ===== src/Rpc/Multiplexer/Bounds.antt =====
-- The capacities of sidecar/ibreeze/rpc/multiplexer.py.
use i_breeze.Prelude.{
  ℕ, ◌+◌, ◌≤◌, leb, false, String, str_eq, ◌≡◌, Option, none, some, List, [], ◌∷◌, length, lookup,
  put, pop, keys, arith, length-append, Option-cases, Bool-cases, inl, inr, sym,
}
use i_breeze.Rpc.Multiplexer.{
  max_pending_per_direction, max_stream_buffer_frames, Hub, ActiveStream, Action, register_pending,
  resolve_pending, cancel_pending, register_stream, push_stream_frame, close_stream,
  close_all_streams, resolve_each, cancel_all, bump_generation, receive, act, act_all, or_same,
  registers, resolves, cancels, opens, pushes, receives, closes, cancels_all, bumps, abandons,
}

length-put {ℓ} :
    {V : Type ℓ} (k : String) (v : V) (d : List (String × V)) → length (put k v d) ≤ length d + 1
unfolding put
length-put k v [] = ground arith
length-put k v ((j, w) ∷ d) = ground (arith, length-put k v d)

put_fits {ℓ} :
    {V : Type ℓ} (k : String) (v : V) (d : List (String × V))
    → leb 256 (length d) ≡ false
    → length (put k v d) ≤ 256
put_fits k v d h = ground (arith, length-put k v d)

length-pop {ℓ} : {V : Type ℓ} (k : String) (d : List (String × V)) → length (pop k d) ≤ length d
unfolding pop
length-pop k [] = ground arith
length-pop k ((j, w) ∷ d) = ground (arith, length-pop k d)

-- A key that is there keeps its place.
length-put_again {ℓ} :
    {V : Type ℓ} (k : String) (v w : V) (d : List (String × V))
    → lookup k d ≡ some w
    → length (put k v d) ≡ length d
unfolding put lookup
length-put_again k v w [] h = ground arith
length-put_again k v w ((j, u) ∷ d) h = ground (arith, length-put_again k v w d)

module _ {V : Type 0} where
  -- The queue of each stream holds at most 64 frames.
  unfoldable pub AllShort : List (String × ActiveStream V) → Type 0
  AllShort [] = Unit
  AllShort ((k, s) ∷ rest) = (length s.queue ≤ max_stream_buffer_frames) × AllShort rest

  put-AllShort :
      (k : String) (s : ActiveStream V) (d : List (String × ActiveStream V))
      → length s.queue ≤ max_stream_buffer_frames
      → AllShort d
      → AllShort (put k s d)
  unfolding put AllShort
  put-AllShort k s [] h a = (h, tt)
  put-AllShort k s ((j, r) ∷ d) h a = elim (Bool-cases (str_eq j k)) [
    | inl e ↦ rw e (h, a.1)
    | inr e ↦ rw e (a.0, put-AllShort k s d h a.1)
  ]

  pop-AllShort : (k : String) (d : List (String × ActiveStream V)) → AllShort d → AllShort (pop k d)
  unfolding pop AllShort
  pop-AllShort k [] a = tt
  pop-AllShort k ((j, r) ∷ d) a = elim (Bool-cases (str_eq j k)) [
    | inl e ↦ rw e (pop-AllShort k d a.1)
    | inr e ↦ rw e (a.0, pop-AllShort k d a.1)
  ]

  some-injective : {s t : ActiveStream V} → some s ≡ some t → s ≡ t
  some-injective h = cc

  lookup-AllShort :
      (k : String) (d : List (String × ActiveStream V)) (s : ActiveStream V)
      → AllShort d
      → lookup k d ≡ some s
      → length s.queue ≤ max_stream_buffer_frames
  unfolding lookup AllShort
  lookup-AllShort k [] s a h = ground arith
  lookup-AllShort k ((j, r) ∷ d) s a h = elim (Bool-cases (str_eq j k)) [
    | inl e ↦ rw (sym (some-injective (rw e at h))) a.0
    | inr e ↦ lookup-AllShort k d s a.1 (rw e at h)
  ]

  pub record IsBounded (h : Hub V) : Type 0 where
    pub pending_bound : length h.pending ≤ max_pending_per_direction
    pub stream_bound : length h.streams ≤ max_pending_per_direction
    pub frame_bound : AllShort h.streams

  resolve_pending-IsBounded :
      (h : Hub V) (rpc_id : String) (result : Option V) (error : Option String)
      → IsBounded h
      → IsBounded (resolve_pending h rpc_id result error)
  unfolding resolve_pending
  resolve_pending-IsBounded h rpc_id result error b =
      elim (Option-cases (lookup rpc_id h.pending)) [
        | inl n ↦ rw (n, resolve_pending) b
        | inr (r, e) ↦
            rw (e, resolve_pending)
              record {
                pending_bound = omega (arith, b.pending_bound, length-pop rpc_id h.pending);
                stream_bound = b.stream_bound;
                frame_bound = b.frame_bound;
              }
      ]

  resolve_each-IsBounded :
      (ids : List String) (error : Option String) (h : Hub V)
      → IsBounded h
      → IsBounded (resolve_each ids error h)
  unfolding resolve_each
  resolve_each-IsBounded [] error h b = b
  resolve_each-IsBounded (i ∷ ids) error h b =
      resolve_each-IsBounded ids error (resolve_pending h i none error)
        (resolve_pending-IsBounded h i none error b)

  cancel_all-IsBounded : (h : Hub V) (error : String) → IsBounded h → IsBounded (cancel_all h error)
  unfolding cancel_all close_all_streams AllShort
  cancel_all-IsBounded h error b =
      let c = resolve_each-IsBounded (keys h.pending) (some error) h b in
      record { pending_bound = c.pending_bound; stream_bound = ground arith; frame_bound = tt }

  register_pending-IsBounded :
      (h : Hub V) (rpc_id : String) (deadline : ℕ)
      → IsBounded h
      → IsBounded (or_same h (register_pending h rpc_id deadline))
  unfolding register_pending
  register_pending-IsBounded h rpc_id deadline b =
      elim (Bool-cases (leb max_pending_per_direction (length h.pending))) [
        | inl e ↦ rw e b
        | inr e ↦ rw e record {
          pending_bound = put_fits rpc_id _ h.pending e;
          stream_bound = b.stream_bound;
          frame_bound = b.frame_bound;
        }
      ]

  register_stream-IsBounded :
      (h : Hub V) (request_id : String)
      → IsBounded h
      → IsBounded (or_same h (register_stream h request_id))
  unfolding register_stream
  register_stream-IsBounded h request_id b =
      elim (Bool-cases (leb max_pending_per_direction (length h.streams))) [
        | inl e ↦ rw e b
        | inr e ↦ rw e record {
          pending_bound = b.pending_bound;
          stream_bound = put_fits request_id _ h.streams e;
          frame_bound = put-AllShort request_id _ h.streams (ground arith) b.frame_bound;
        }
      ]

  -- A stream that is there gets a queue that is short enough.
  requeued-IsBounded :
      (h : Hub V) (k : String) (s t : ActiveStream V)
      → lookup k h.streams ≡ some s
      → length t.queue ≤ max_stream_buffer_frames
      → IsBounded h
      → IsBounded (record h { streams = put k t h.streams })
  requeued-IsBounded h k s t e q b = record {
    pending_bound = b.pending_bound;
    stream_bound = rw (length-put_again k t s h.streams e) b.stream_bound;
    frame_bound = put-AllShort k t h.streams q b.frame_bound;
  }

  push_stream_frame-IsBounded :
      (h : Hub V) (request_id : String) (value : V)
      → IsBounded h
      → IsBounded (or_same h (push_stream_frame h request_id value))
  unfolding push_stream_frame
  push_stream_frame-IsBounded h k value b = elim (Option-cases (lookup k h.streams)) [
    | inl n ↦ rw (n, or_same) b
    | inr (s, e) ↦
        rw (e, or_same)
          (elim (Bool-cases (leb max_stream_buffer_frames (length s.queue))) [
            | inl f ↦ rw f b
            | inr f ↦ rw f (
                requeued-IsBounded h k s _ e (ground (arith, length-append s.queue (value ∷ []))) b)
          ])
  ]

  length-rest : (q : List V) → length (elim q [ [] ↦ [] | _ ∷ rest ↦ rest ]) ≤ length q
  length-rest [] = ground arith
  length-rest (v ∷ q) = ground arith

  receive-IsBounded :
      (h : Hub V) (request_id : String) → IsBounded h → IsBounded (receive h request_id)
  unfolding receive
  receive-IsBounded h k b = elim (Option-cases (lookup k h.streams)) [
    | inl n ↦ rw (n, receive) b
    | inr (s, e) ↦
        rw (e, receive)
          (requeued-IsBounded h k s _ e
            (omega (arith, length-rest s.queue, lookup-AllShort k h.streams s b.frame_bound e)) b)
  ]

  close_stream-IsBounded :
      (h : Hub V) (request_id : String) → IsBounded h → IsBounded (close_stream h request_id)
  unfolding close_stream
  close_stream-IsBounded h k b = record {
    pending_bound = b.pending_bound;
    stream_bound = omega (arith, b.stream_bound, length-pop k h.streams);
    frame_bound = pop-AllShort k h.streams b.frame_bound;
  }

  act-IsBounded : (h : Hub V) (a : Action V) → IsBounded h → IsBounded (act h a)
  unfolding act cancel_pending bump_generation
  act-IsBounded h (registers i d) b = register_pending-IsBounded h i d b
  act-IsBounded h (resolves i r e) b = resolve_pending-IsBounded h i r e b
  act-IsBounded h (cancels i) b = resolve_pending-IsBounded h i none (some "IPC_CONNECTION_LOST") b
  act-IsBounded h (opens k) b = register_stream-IsBounded h k b
  act-IsBounded h (pushes k v) b = push_stream_frame-IsBounded h k v b
  act-IsBounded h (receives k) b = receive-IsBounded h k b
  act-IsBounded h (closes k) b = close_stream-IsBounded h k b
  act-IsBounded h (cancels_all e) b = cancel_all-IsBounded h e b
  act-IsBounded h bumps b = cancel_all-IsBounded _ "IPC_CONNECTION_LOST" record {
    pending_bound = b.pending_bound;
    stream_bound = b.stream_bound;
    frame_bound = b.frame_bound;
  }
  act-IsBounded h (abandons i) b = record {
    pending_bound = b.pending_bound;
    stream_bound = b.stream_bound;
    frame_bound = b.frame_bound;
  }

  -- Whatever calls are made on a hub within its capacities, it stays within them: 256 pending requests,
  -- 256 streams, and 64 frames in the buffer of each stream.
  pub act_all-IsBounded :
      (h : Hub V) (actions : List (Action V)) → IsBounded h → IsBounded (act_all h actions)
  unfolding act_all
  act_all-IsBounded h [] b = b
  act_all-IsBounded h (a ∷ rest) b = act_all-IsBounded (act h a) rest (act-IsBounded h a b)
