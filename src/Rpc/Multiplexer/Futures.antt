-- ===== src/Rpc/Multiplexer/Futures.antt =====
-- The futures that sidecar/ibreeze/rpc/multiplexer.py hands out: each is settled once.
use i_breeze.Prelude.{
  ℕ, ◌+◌, true, String, ◌≡◌, refl, Option, none, some, List, [], ◌∷◌, length, lookup, keys,
  Option-cases, Bool-cases, inl, inr, leb,
}
use i_breeze.Asyncio.{waiting, cancelled, done, future_at, Keeps, settle-Keeps, append-Keeps}
use i_breeze.Rpc.Multiplexer.{
  RpcFuture, max_pending_per_direction, max_stream_buffer_frames, Hub, Action, or_same, answer,
  register_pending, resolve_pending, cancel_pending, register_stream, push_stream_frame,
  close_stream, close_all_streams, resolve_each, cancel_all, bump_generation, receive, act, act_all,
  registers, resolves, cancels, opens, pushes, receives, closes, cancels_all, bumps, abandons,
}

module _ {V : Type 0} where
  resolve_pending-Keeps :
      (h : Hub V) (rpc_id : String) (result : Option V) (error : Option String)
      → Keeps h.futures (resolve_pending h rpc_id result error).futures
  unfolding resolve_pending
  resolve_pending-Keeps h k result error i f e d = elim (Option-cases (lookup k h.pending)) [
    | inl n ↦ rw (n, resolve_pending) e
    | inr (r, p) ↦
        rw (p, resolve_pending)
          (settle-Keeps r.response_future (answer result error) h.futures i f e d)
  ]

  resolve_each-Keeps :
      (ids : List String) (error : Option String) (h : Hub V)
      → Keeps h.futures (resolve_each ids error h).futures
  unfolding resolve_each
  resolve_each-Keeps [] error h i f e d = e
  resolve_each-Keeps (k ∷ ids) error h i f e d =
      resolve_each-Keeps ids error (resolve_pending h k none error) i f
        (resolve_pending-Keeps h k none error i f e d) d

  register_pending-Keeps :
      (h : Hub V) (rpc_id : String) (deadline : ℕ)
      → Keeps h.futures (or_same h (register_pending h rpc_id deadline)).futures
  unfolding register_pending
  register_pending-Keeps h k deadline i f e d =
      elim (Bool-cases (leb max_pending_per_direction (length h.pending))) [
        | inl b ↦ rw b e
        | inr b ↦ rw b (append-Keeps h.futures waiting i f e d)
      ]

  pub register_stream-futures :
      (h : Hub V) (k : String) → (or_same h (register_stream h k)).futures ≡ h.futures
  unfolding register_stream
  register_stream-futures h k =
      elim (Bool-cases (leb max_pending_per_direction (length h.streams))) [
        | inl b ↦ rw b refl
        | inr b ↦ rw b refl
      ]

  pub register_stream-pending :
      (h : Hub V) (k : String) → (or_same h (register_stream h k)).pending ≡ h.pending
  unfolding register_stream
  register_stream-pending h k =
      elim (Bool-cases (leb max_pending_per_direction (length h.streams))) [
        | inl b ↦ rw b refl
        | inr b ↦ rw b refl
      ]

  pub push_stream_frame-futures :
      (h : Hub V) (k : String) (v : V) → (or_same h (push_stream_frame h k v)).futures ≡ h.futures
  unfolding push_stream_frame
  push_stream_frame-futures h k v = elim (Option-cases (lookup k h.streams)) [
    | inl n ↦ rw (n, or_same) refl
    | inr (s, e) ↦
        rw (e, or_same)
          (elim (Bool-cases (leb max_stream_buffer_frames (length s.queue))) [
            | inl b ↦ rw b refl
            | inr b ↦ rw b refl
          ])
  ]

  pub push_stream_frame-pending :
      (h : Hub V) (k : String) (v : V) → (or_same h (push_stream_frame h k v)).pending ≡ h.pending
  unfolding push_stream_frame
  push_stream_frame-pending h k v = elim (Option-cases (lookup k h.streams)) [
    | inl n ↦ rw (n, or_same) refl
    | inr (s, e) ↦
        rw (e, or_same)
          (elim (Bool-cases (leb max_stream_buffer_frames (length s.queue))) [
            | inl b ↦ rw b refl
            | inr b ↦ rw b refl
          ])
  ]

  pub receive-futures : (h : Hub V) (k : String) → (receive h k).futures ≡ h.futures
  unfolding receive
  receive-futures h k = elim (Option-cases (lookup k h.streams)) [
    | inl n ↦ rw (n, receive) refl
    | inr (s, e) ↦ rw (e, receive) refl
  ]

  pub receive-pending : (h : Hub V) (k : String) → (receive h k).pending ≡ h.pending
  unfolding receive
  receive-pending h k = elim (Option-cases (lookup k h.streams)) [
    | inl n ↦ rw (n, receive) refl
    | inr (s, e) ↦ rw (e, receive) refl
  ]

  act-Keeps : (h : Hub V) (a : Action V) → Keeps h.futures (act h a).futures
  unfolding act cancel_pending bump_generation cancel_all close_all_streams close_stream
  act-Keeps h (registers k t) i f e d = register_pending-Keeps h k t i f e d
  act-Keeps h (resolves k r x) i f e d = resolve_pending-Keeps h k r x i f e d
  act-Keeps h (cancels k) i f e d =
      resolve_pending-Keeps h k none (some "IPC_CONNECTION_LOST") i f e d
  act-Keeps h (opens k) i f e d = rw (register_stream-futures h k) e
  act-Keeps h (pushes k v) i f e d = rw (push_stream_frame-futures h k v) e
  act-Keeps h (receives k) i f e d = rw (receive-futures h k) e
  act-Keeps h (closes k) i f e d = e
  act-Keeps h (cancels_all x) i f e d = resolve_each-Keeps (keys h.pending) (some x) h i f e d
  act-Keeps h bumps i f e d =
      resolve_each-Keeps (keys h.pending) (some "IPC_CONNECTION_LOST")
        (record h { generation = h.generation + 1 }) i f e d
  act-Keeps h (abandons j) i f e d = settle-Keeps j cancelled h.futures i f e d

  -- A future that has a result, an exception or was cancelled keeps it through all further calls: a late
  -- or repeated answer changes nothing.
  pub act_all-Keeps :
      (h : Hub V) (actions : List (Action V)) (i : ℕ) (f : RpcFuture V)
      → future_at i h.futures ≡ some f
      → done f ≡ true
      → future_at i (act_all h actions).futures ≡ some f
  unfolding act_all
  act_all-Keeps h [] i f e d = e
  act_all-Keeps h (a ∷ rest) i f e d = act_all-Keeps (act h a) rest i f (act-Keeps h a i f e d) d
