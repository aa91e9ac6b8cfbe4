-- ===== src/Rpc/Multiplexer/Tests.antt =====
-- Runs of sidecar/ibreeze/rpc/multiplexer.py, and instances of its theorems.
use i_breeze.Prelude.{ℕ, ◌≡◌, refl, true, lookup, put, pop, List, [], ◌∷◌, none, some, arith}
use i_breeze.Asyncio.{waiting, returned, raised, future_at, settle}
use i_breeze.Rpc.Multiplexer.{
  Action, ipc_error, new_hub, register_pending, resolve_pending, register_stream, push_stream_frame,
  close_all_streams, resolve_each, cancel_all, bump_generation, receive, act, act_all, registers,
  resolves, cancels, opens, pushes, receives, bumps,
}
use i_breeze.Rpc.Multiplexer.Bounds.{IsBounded, AllShort, act_all-IsBounded}
use i_breeze.Rpc.Multiplexer.Futures.{act_all-Keeps}
use i_breeze.Rpc.Multiplexer.Settled.{Settled, fresh, bump_generation-Settled}

abbrev calls : List (Action ℕ)
calls =
    registers "a" 5
    ∷ registers "b" 9
    ∷ opens "s"
    ∷ pushes "s" 1
    ∷ pushes "s" 2
    ∷ receives "s"
    ∷ resolves "a" (some 7) none
    ∷ []

calls_run :
    ((act_all new_hub calls).futures ≡ returned (some 7) ∷ waiting ∷ [])
    × ((bump_generation (act_all new_hub calls)).futures
        ≡ returned (some 7) ∷ raised (ipc_error "IPC_CONNECTION_LOST") ∷ [])
unfolding act_all act register_pending register_stream push_stream_frame receive resolve_pending
    settle put pop lookup bump_generation cancel_all resolve_each close_all_streams
calls_run = (refl, refl)

new_hub-IsBounded : IsBounded {V = ℕ} new_hub
unfolding AllShort
new_hub-IsBounded = record {
  pending_bound = ground arith;
  stream_bound = ground arith;
  frame_bound = tt;
}

act_all-IsBounded_example : IsBounded (act_all new_hub calls)
act_all-IsBounded_example = act_all-IsBounded new_hub calls new_hub-IsBounded

answered_then_late : future_at 0 (act_all new_hub calls).futures ≡ some (returned (some 7))
unfolding act_all act register_pending register_stream push_stream_frame receive resolve_pending
    settle put pop lookup future_at
answered_then_late = refl

act_all-Keeps_example :
    future_at 0 (act_all (act_all new_hub calls) (cancels "a" ∷ bumps ∷ [])).futures
    ≡ some (returned (some 7))
act_all-Keeps_example =
    act_all-Keeps (act_all new_hub calls) (cancels "a" ∷ bumps ∷ []) 0 (returned (some 7))
      answered_then_late refl

calls_are_new : fresh new_hub calls ≡ true
unfolding fresh act register_pending register_stream push_stream_frame receive resolve_pending
    settle put pop lookup
calls_are_new = refl

bump_generation-Settled_example :
    Settled (act_all new_hub calls) (bump_generation (act_all new_hub calls))
bump_generation-Settled_example = bump_generation-Settled calls calls_are_new
