-- ===== src/Persistence/WriteQueue.antt =====
-- sidecar/ibreeze/persistence/write_queue.py. A command sees the database and answers or raises, and has
-- written something either way. A turn of the worker handles one envelope; BEGIN, COMMIT and ROLLBACK may
-- raise too. Instants are numbers. The trace id of an envelope is not read here.
pub mod Handled
pub mod Cases
pub mod Atomic
pub mod Serial
pub mod Settling
pub mod Futures
pub mod Served
mod Tests
use i_breeze.Prelude.{
  ℕ, suc, ◌==◌, ltb, leb, String, Bool, true, false, not, ◌&&◌, ◌||◌, Option, none, some, List, [],
  ◌∷◌, ◌++◌, length, if◌then◌else◌,
}
use i_breeze.Result.{Result, ok, err}
use i_breeze.Persistence.Connection.{
  Connection, Faults, sound, begin_immediate, perform, commit, rollback,
}
use i_breeze.Asyncio.{
  Future, waiting, returned, raised, cancelled, done, future_at, settle, is_cancelled,
}

-- `WriteEnvelope`; `future` is the position of its future.
pub record WriteEnvelope (V D : Type 0) : Type 0 where
  pub command_name : String
  pub deadline_at : ℕ
  pub execute : D → Result String V × D
  pub future : ℕ

-- The attributes of a `WriteQueue`, with the futures of its loop.
-- `worker` is False once the task has ended.
pub record WriteQueue (V D : Type 0) : Type 0 where
  pub capacity : ℕ
  pub queue : List (WriteEnvelope V D)
  pub running : Bool
  pub worker : Bool
  pub futures : List (Future V String)
  pub connection : Connection D

-- The connection when the command is cut off after it wrote something. CancelledError is no Exception:
-- nothing is rolled back.
unfoldable pub cut_off : {D : Type 0} → (D → D) → Connection D → Connection D
cut_off writes k = elim (begin_immediate none k) [
  | err e ↦ k
  | ok opened ↦ record opened { transaction = some (writes opened.database) }
]

module _ {V D : Type 0} where
  -- `WriteQueue(connection, capacity)`
  abbrev pub new_queue : ℕ → D → WriteQueue V D
  new_queue capacity database = record {
    capacity = capacity;
    queue = [];
    running = true;
    worker = true;
    futures = [];
    connection = record { database = database; transaction = none };
  }

  -- `asyncio.Queue.full`: a maxsize of 0 is no bound.
  abbrev pub full : WriteQueue V D → Bool
  full q = not (q.capacity == 0) && leb q.capacity (length q.queue)

  -- `put_nowait` of a new envelope, whose future is the next one.
  abbrev pub put_envelope : WriteQueue V D → String → ℕ → (D → Result String V × D) → WriteQueue V D
  put_envelope q command_name deadline_at execute = record q {
    queue =
        q.queue
        ++ (record {
          command_name = command_name;
          deadline_at = deadline_at;
          execute = execute;
          future = length q.futures;
        }
            ∷ []);
    futures = q.futures ++ (waiting ∷ []);
  }

  -- `submit`, up to its wait for the result
  unfoldable pub submit :
      WriteQueue V D → String → ℕ → (D → Result String V × D) → Result String (WriteQueue V D)
  submit q command_name deadline_at execute =
      if not q.running
      then err "LOCAL_WRITE_QUEUE_STOPPED"
      else if full q
      then err "LOCAL_WRITE_BACKPRESSURE"
      else ok (put_envelope q command_name deadline_at execute)

  -- `barrier`, up to its wait: a command that answers None and changes nothing. It does not ask whether
  -- the queue is running.
  unfoldable pub barrier : WriteQueue V D → V → ℕ → Result String (WriteQueue V D)
  barrier q no_value far =
      if full q
      then err "QueueFull"
      else ok (put_envelope q "__barrier__" far (λ d. (ok no_value, d)))

  -- `depth`
  abbrev pub depth : WriteQueue V D → ℕ
  depth q = length q.queue

  -- The body of the `try`: BEGIN IMMEDIATE, the command, COMMIT.
  unfoldable pub attempt :
      Faults → (D → Result String V × D) → Connection D → Result String V × Connection D
  attempt faults execute k = elim (begin_immediate faults.begin_raises k) [
    | err e ↦ (err e, k)
    | ok opened ↦
        let done = perform execute opened in
        elim done.0 [
          | err e ↦ (err e, done.1)
          | ok v ↦ elim (commit faults.commit_raises done.1) [
            | err e ↦ (err e, done.1)
            | ok committed ↦ (ok v, committed)
          ]
        ]
  ]

  -- What the future is set to, and the connection afterwards: on an exception ROLLBACK, and what that
  -- raises is dropped.
  unfoldable pub transact :
      Faults → (D → Result String V × D) → Connection D → Future V String × Connection D
  transact faults execute k =
      let tried = attempt faults execute k in
      elim tried.0 [
        | err e ↦ (raised e, rollback faults.rollback_raises tried.1)
        | ok v ↦ (returned v, tried.1)
      ]

  -- The two tests before an envelope is executed.
  abbrev pub is_void : WriteQueue V D → WriteEnvelope V D → ℕ → Bool
  is_void q e now = is_cancelled (future_at e.future q.futures) || ltb e.deadline_at now

  -- One envelope of `_run`. `gives_up` says that its caller cancels the future while it executes.
  unfoldable pub handle : WriteQueue V D → WriteEnvelope V D → ℕ → Faults → Bool → WriteQueue V D
  handle q e now faults gives_up =
      if is_cancelled (future_at e.future q.futures)
      then q
      else if ltb e.deadline_at now
      then record q { futures = settle e.future (raised "IPC_DEADLINE_EXCEEDED") q.futures }
      else (let futures = if gives_up then settle e.future cancelled q.futures else q.futures in
          let outcome = transact faults e.execute q.connection in
          record q { futures = settle e.future outcome.0 futures; connection = outcome.1 })

  -- The worker takes the oldest envelope. If there is none in time, it goes on waiting, or ends once
  -- the queue is not running.
  unfoldable pub turn : WriteQueue V D → ℕ → Faults → Bool → WriteQueue V D
  unfolding handle
  turn q now faults gives_up = if not q.worker then q else elim q.queue [
    | [] ↦ record q { worker = q.running }
    | e ∷ rest ↦ handle (record q { queue = rest }) e now faults gives_up
  ]

  -- `stop` at its start, and once its wait for the queue is over.
  abbrev pub stop_begins : WriteQueue V D → WriteQueue V D
  stop_begins q = record q { running = false }

  abbrev pub stop_ends : WriteQueue V D → WriteQueue V D
  stop_ends q = record q { worker = false }

  -- `stop` gives up its wait for the queue while the oldest envelope is executed: the future of that one is
  -- not set.
  unfoldable pub stop_within : WriteQueue V D → ℕ → (D → D) → WriteQueue V D
  unfolding handle cut_off
  stop_within q now writes = if not q.worker then q else elim q.queue [
    | [] ↦ record q { worker = false }
    | e ∷ rest ↦
        if is_void q e now
        then record (handle (record q { queue = rest }) e now sound false) { worker = false }
        else record q { queue = rest; worker = false; connection = cut_off writes q.connection }
  ]

-- What happens at a queue.
pub data Event (V D : Type 0) : Type 0 where
  submits : String → ℕ → (D → Result String V × D) → Event V D
  barriers : V → ℕ → Event V D
  turns : ℕ → Faults → Bool → Event V D
  cancels : ℕ → Event V D
  stops : Event V D
  stopped : Event V D
  interrupts : ℕ → (D → D) → Event V D

module _ {V D : Type 0} where
  -- A call that raises leaves the queue as it was.
  abbrev pub or_same : WriteQueue V D → Result String (WriteQueue V D) → WriteQueue V D
  or_same q (err e) = q
  or_same q (ok q') = q'

  unfoldable pub step : WriteQueue V D → Event V D → WriteQueue V D
  step q (submits command_name deadline_at execute) =
      or_same q (submit q command_name deadline_at execute)
  step q (barriers no_value far) = or_same q (barrier q no_value far)
  step q (turns now faults gives_up) = turn q now faults gives_up
  step q (cancels i) = record q { futures = settle i cancelled q.futures }
  step q stops = stop_begins q
  step q stopped = stop_ends q
  step q (interrupts now writes) = stop_within q now writes

  unfoldable pub steps : WriteQueue V D → List (Event V D) → WriteQueue V D
  steps q [] = q
  steps q (e ∷ es) = steps (step q e) es
