-- ===== src/Rpc/Multiplexer/Settled.antt =====
-- No caller of sidecar/ibreeze/rpc/multiplexer.py is left waiting.
use i_breeze.Prelude.{
  ℕ, ◌+◌, Bool, true, false, ◌≡◌, ◌≢◌, refl, Option, none, some, List, [], ◌∷◌, lookup, keys, is_in,
  arith, subst, ◌&&◌, not, and-eq_true,
}
use i_breeze.Asyncio.{waiting, cancelled, future_at, settle, settle-waiting}
use i_breeze.Rpc.Multiplexer.{
  Hub, PendingRequest, Action, or_same, new_hub, cancel_pending, register_stream, push_stream_frame,
  close_stream, close_all_streams, resolve_each, cancel_all, bump_generation, receive, act, act_all,
  registers, resolves, cancels, opens, pushes, receives, closes, cancels_all, bumps, abandons,
}
use i_breeze.Rpc.Multiplexer.Futures.{
  register_stream-futures, push_stream_frame-futures, receive-futures, register_stream-pending,
  push_stream_frame-pending, receive-pending,
}
use i_breeze.Rpc.Multiplexer.Answers.{
  NoLeak, resolve_pending-NoLeak, resolve_each-NoLeak, none_pending, resolve_each-generation,
  register_pending-NoLeak,
}

module _ {V : Type 0} where
  -- No request is registered under the id of a request that is pending.
  abbrev pub fresh_step : Hub V → Action V → Bool
  fresh_step h (registers k t) = not (is_in k h.pending)
  fresh_step h _ = true

  unfoldable pub fresh : Hub V → List (Action V) → Bool
  fresh h [] = true
  fresh h (a ∷ rest) = let later = fresh (act h a) rest in fresh_step h a && later

  abandons-NoLeak :
      (h : Hub V) (j : ℕ) → NoLeak h → NoLeak (record h { futures = settle j cancelled h.futures })
  abandons-NoLeak h j w i e = w i (settle-waiting j i cancelled h.futures refl e).1

  -- Streams aside, what matters is unchanged.
  same-NoLeak : (h g : Hub V) → g.futures ≡ h.futures → g.pending ≡ h.pending → NoLeak h → NoLeak g
  same-NoLeak h g f p w i e = rw p (w i (rw f at e))

  act-NoLeak : (h : Hub V) (a : Action V) → fresh_step h a ≡ true → NoLeak h → NoLeak (act h a)
  unfolding act cancel_pending bump_generation cancel_all close_all_streams close_stream
  act-NoLeak h (registers k t) f w =
      register_pending-NoLeak h k t (unknown (lookup k h.pending) f) w
    where
      unknown :
          (o : Option PendingRequest)
          → not (elim o as (λ _. Bool) [ none ↦ false | some _ ↦ true ]) ≡ true
          → o ≡ none
      unknown none x = refl
      unknown (some r) x = ground arith
  act-NoLeak h (resolves k r x) f w = resolve_pending-NoLeak h k r x w
  act-NoLeak h (cancels k) f w = resolve_pending-NoLeak h k none (some "IPC_CONNECTION_LOST") w
  act-NoLeak h (opens k) f w =
      same-NoLeak h (or_same h (register_stream h k)) (register_stream-futures h k)
        (register_stream-pending h k) w
  act-NoLeak h (pushes k v) f w =
      same-NoLeak h (or_same h (push_stream_frame h k v)) (push_stream_frame-futures h k v)
        (push_stream_frame-pending h k v) w
  act-NoLeak h (receives k) f w =
      same-NoLeak h (receive h k) (receive-futures h k) (receive-pending h k) w
  act-NoLeak h (closes k) f w = w
  act-NoLeak h (cancels_all x) f w = resolve_each-NoLeak (keys h.pending) (some x) h w
  act-NoLeak h bumps f w =
      resolve_each-NoLeak (keys h.pending) (some "IPC_CONNECTION_LOST")
        (record h { generation = h.generation + 1 }) w
  act-NoLeak h (abandons j) f w = abandons-NoLeak h j w

  act_all-NoLeak :
      (h : Hub V) (actions : List (Action V))
      → fresh h actions ≡ true
      → NoLeak h
      → NoLeak (act_all h actions)
  unfolding fresh act_all
  act_all-NoLeak h [] f w = w
  act_all-NoLeak h (a ∷ rest) f w =
      let p = and-eq_true (fresh_step h a) (fresh (act h a) rest) f in
      act_all-NoLeak (act h a) rest p.1 (act-NoLeak h a p.0 w)

  -- What holds of a hub when its connection is replaced.
  pub record Settled (before after : Hub V) : Type 0 where
    pub next_generation : after.generation ≡ before.generation + 1
    pub no_pending : after.pending ≡ []
    pub no_streams : after.streams ≡ []
    pub none_waits : (i : ℕ) → future_at i after.futures ≢ some waiting

  nothing_waits :
      (h : Hub V) → h.pending ≡ [] → NoLeak h → (i : ℕ) → future_at i h.futures ≢ some waiting
  unfolding lookup
  nothing_waits h p w i e =
      let q = w i e in
      let x : lookup q.0 [] ≡ some q.1 = subst (λ d. lookup q.0 d ≡ some q.1) p q.2 in ground arith

  new_hub-NoLeak : NoLeak {V = V} new_hub
  unfolding future_at
  new_hub-NoLeak i e = ground arith

  -- After any calls on a new hub that never register an id that is still pending, a new generation
  -- leaves no request and no stream, and not one of the futures ever handed out waits: each was
  -- answered, failed or was given up.
  pub bump_generation-Settled :
      (actions : List (Action V))
      → fresh new_hub actions ≡ true
      → Settled (act_all new_hub actions) (bump_generation (act_all new_hub actions))
  unfolding bump_generation cancel_all close_all_streams
  bump_generation-Settled actions f =
      let h = act_all new_hub actions in
      let g = record h { generation = h.generation + 1 } in
      let error = some "IPC_CONNECTION_LOST" in
      let p = none_pending g error in
      record {
        next_generation = resolve_each-generation (keys g.pending) error g;
        no_pending = p;
        no_streams = refl;
        none_waits = nothing_waits (resolve_each (keys g.pending) error g) p (
            resolve_each-NoLeak (keys g.pending) error g
              (act_all-NoLeak new_hub actions f new_hub-NoLeak));
      }
