-- ===== src/Rpc/Multiplexer.antt =====
-- sidecar/ibreeze/rpc/multiplexer.py. A future that the event loop hands out is a position in a list of
-- futures, which the callers share with the table of pending requests; request ids are texts, and a
-- deadline, which nothing here reads, is a number. The event
-- `cancel_event` of a request, which nothing here sets, and the queue `_writer`, which nothing here
-- uses, are left out.
pub mod Bounds
pub mod Futures
pub mod Answers
pub mod Settled
mod Tests
use i_breeze.Prelude.{
  ℕ, zero, suc, ◌+◌, leb, Bool, true, false, String, str_eq, Option, none, some, List, [], ◌∷◌,
  ◌++◌, length, lookup, put, pop, keys, if◌then◌else◌,
}
use i_breeze.Asyncio.{Future, waiting, returned, raised, cancelled, settle}
use i_breeze.Result.{Result, ok, err}

-- MAX_PENDING_PER_DIRECTION
abbrev pub max_pending_per_direction : ℕ
max_pending_per_direction = 256

-- MAX_STREAM_BUFFER_FRAMES
abbrev pub max_stream_buffer_frames : ℕ
max_stream_buffer_frames = 64

pub data IpcError : Type 0 where
  ipc_error : String → IpcError
  backpressure : String → IpcError
  connection_lost : String → IpcError

-- A future of the event loop; the result may be None.
abbrev pub RpcFuture : Type 0 → Type 0
RpcFuture V = Future (Option V) IpcError

pub record PendingRequest : Type 0 where
  pub deadline : ℕ
  pub response_future : ℕ

pub record ActiveStream (V : Type 0) : Type 0 where
  pub next_sequence : ℕ
  pub queue : List V

-- The attributes of a `Multiplexer`, and the futures of its event loop.
pub record Hub (V : Type 0) : Type 0 where
  pub generation : ℕ
  pub pending : List (String × PendingRequest)
  pub streams : List (String × ActiveStream V)
  pub futures : List (RpcFuture V)

module _ {V : Type 0} where
  -- `Multiplexer()`
  abbrev pub new_hub : Hub V
  new_hub = record { generation = 0; pending = []; streams = []; futures = [] }

  -- The future that `register_pending` returns is `length h.futures`.
  unfoldable pub register_pending : Hub V → String → ℕ → Result IpcError (Hub V)
  register_pending h rpc_id deadline =
      if leb max_pending_per_direction (length h.pending)
      then err (backpressure "too many pending requests")
      else ok (record h {
        pending =
            put rpc_id record { deadline = deadline; response_future = length h.futures } h.pending;
        futures = h.futures ++ (waiting ∷ []);
      })

  -- `set_exception` if `error` is a text that is not empty, else `set_result`
  abbrev pub answer : Option V → Option String → RpcFuture V
  answer result none = returned result
  answer result (some error) = if str_eq error "" then returned result else raised (ipc_error error)

  unfoldable pub resolve_pending : Hub V → String → Option V → Option String → Hub V
  resolve_pending h rpc_id result error = elim (lookup rpc_id h.pending) [
    | none ↦ h
    | some request ↦ record h {
      pending = pop rpc_id h.pending;
      futures = settle request.response_future (answer result error) h.futures;
    }
  ]

  unfoldable pub cancel_pending : Hub V → String → Hub V
  unfolding resolve_pending
  cancel_pending h rpc_id = resolve_pending h rpc_id none (some "IPC_CONNECTION_LOST")

  unfoldable pub register_stream : Hub V → String → Result IpcError (Hub V)
  register_stream h request_id =
      if leb max_pending_per_direction (length h.streams)
      then err (backpressure "too many streams")
      else ok
          (record h { streams = put request_id record { next_sequence = 1; queue = [] } h.streams })

  unfoldable pub push_stream_frame : Hub V → String → V → Result IpcError (Hub V)
  push_stream_frame h request_id value = elim (lookup request_id h.streams) [
    | none ↦ err (connection_lost "stream not found")
    | some stream ↦
        if leb max_stream_buffer_frames (length stream.queue)
        then err (backpressure "stream buffer full")
        else ok (record h {
          streams =
              put request_id (record stream { queue = stream.queue ++ (value ∷ []) }) h.streams;
        })
  ]

  unfoldable pub close_stream : Hub V → String → Hub V
  close_stream h request_id = record h { streams = pop request_id h.streams }

  unfoldable pub close_all_streams : Hub V → Hub V
  close_all_streams h = record h { streams = [] }

  -- `for rpc_id in list(...)`
  unfoldable pub resolve_each : List String → Option String → Hub V → Hub V
  unfolding resolve_pending
  resolve_each [] error h = h
  resolve_each (rpc_id ∷ ids) error h = resolve_each ids error (resolve_pending h rpc_id none error)

  unfoldable pub cancel_all : Hub V → String → Hub V
  unfolding resolve_each close_all_streams
  cancel_all h error = close_all_streams (resolve_each (keys h.pending) (some error) h)

  unfoldable pub bump_generation : Hub V → Hub V
  unfolding cancel_all
  bump_generation h = cancel_all (record h { generation = h.generation + 1 }) "IPC_CONNECTION_LOST"

  -- The consumer of a stream takes the oldest frame.
  unfoldable pub receive : Hub V → String → Hub V
  receive h request_id = elim (lookup request_id h.streams) [
    | none ↦ h
    | some stream ↦ record h {
      streams =
          put request_id (record stream { queue = elim stream.queue [ [] ↦ [] | _ ∷ rest ↦ rest ] })
            h.streams;
    }
  ]

pub data Action (V : Type 0) : Type 0 where
  registers : String → ℕ → Action V
  resolves : String → Option V → Option String → Action V
  cancels : String → Action V
  opens : String → Action V
  pushes : String → V → Action V
  receives : String → Action V
  closes : String → Action V
  cancels_all : String → Action V
  bumps : Action V
  -- the caller that awaits a future gives it up
  abandons : ℕ → Action V

module _ {V : Type 0} where
  -- A call that raises leaves the hub as it was.
  abbrev pub or_same : Hub V → Result IpcError (Hub V) → Hub V
  or_same h (err e) = h
  or_same h (ok h') = h'

  unfoldable pub act : Hub V → Action V → Hub V
  act h (registers rpc_id deadline) = or_same h (register_pending h rpc_id deadline)
  act h (resolves rpc_id result error) = resolve_pending h rpc_id result error
  act h (cancels rpc_id) = cancel_pending h rpc_id
  act h (opens request_id) = or_same h (register_stream h request_id)
  act h (pushes request_id value) = or_same h (push_stream_frame h request_id value)
  act h (receives request_id) = receive h request_id
  act h (closes request_id) = close_stream h request_id
  act h (cancels_all error) = cancel_all h error
  act h bumps = bump_generation h
  act h (abandons i) = record h { futures = settle i cancelled h.futures }

  unfoldable pub act_all : Hub V → List (Action V) → Hub V
  act_all h [] = h
  act_all h (a ∷ rest) = act_all (act h a) rest
