-- ===== src/Lib.antt =====
-- A verification library of iBreeze: the deterministic core of the Python sidecar, which plans the work
-- of a company of agents, runs it and keeps its records. Paths are from the root of the repository.
--
-- Parts of the program and the files that model them:
-- - StateMachine: sidecar/ibreeze/state_machine.py. The nine StrEnums and their tables stand in one file
--   each (CompanyTask, AgentRun, ...), as a data type, its `.value`, and a function from a state to its
--   targets. Registry has `_TRANSITION_TABLES` as a dict of texts and the functions over it under their
--   Python names: is_terminal, get_allowed_targets, can_transition, transition, validate_resume_state.
--   Machines relates the dict to the data types, Outcomes says what each function answers. A history
--   is a list of calls of `transition` with their resume states (Gates.Histories); Walk moves a row that
--   records where a wait began, and Gates, Terminal and Finish are about such rows.
-- - Plan: sidecar/ibreeze/orchestration/plan_validator.py. Model has the pydantic schema as records,
--   Validate the rules of validate_plan in their order, Graph the depth-first search of _has_cycle with
--   its two sets. Accepts describes the valid plans without the code, Cycle is about the search.
-- - Routing: sidecar/ibreeze/routing/health.py, the strikes and benches of a deployment (Health), and
--   histories of reports on it (History, Bench).
-- - Routing.Classifier: sidecar/ibreeze/routing/classifier.py, the required tier (Tiers), the confidence
--   (Confidence), and what it means for a plan (Ensembles). The quotient context_pressure is in hundredths.
-- - Routing.Retry: sidecar/ibreeze/routing/retry.py, the retry directive of every kind of failure.
-- - Routing.Engine: sidecar/ibreeze/routing/engine.py (Gate, Plan) and the selection of ensemble.py beside it
--   (Ensemble). The decimal scores appear as the orders by which the code sorts.
-- - Rpc.Multiplexer: sidecar/ibreeze/rpc/multiplexer.py. The futures of the event loop are a list of
--   cells, which the table of pending requests and the callers share; Action is one call, or a caller
--   that gives up, or a consumer that takes a frame.
-- - Rpc.Frame: sidecar/ibreeze/rpc/frame.py, the frames on the socket as lists of bytes.
-- - Rpc.Server: sidecar/ibreeze/rpc/production_server.py, in Handshake, Context and Dispatch; the
--   application behind the socket is the interface Services, and a history is a list of ServerEvents.
-- - Runtime.Scheduler: sidecar/ibreeze/runtime/scheduler.py and the lease cleanup of
--   sidecar/ibreeze/workers/analysis.py, over the tables runtime_queue, runtime_leases and
--   runtime_company_fairness and with their constraints. Runtime.Stamp has the texts of their instants.
-- - Runtime.Recovery: sidecar/ibreeze/runtime/recovery.py, over agent_runs and the tables of the scheduler
--   and, in Routing, over route_attempts, route_decisions and deployment_health. Rows has what an UPDATE
--   does to a table.
-- - Approvals: sidecar/ibreeze/approvals/service.py over the table human_approvals; its decisions are
--   compared with the HumanApproval machine of StateMachine.
-- - Review: the transition of issues in sidecar/ibreeze/domain/review/repository.py with the tables of
--   sidecar/ibreeze/domain/review/state.py, over review_issues by its primary key.
-- - Persistence: sidecar/ibreeze/persistence/idempotency.py (Idempotency) and unit_of_work.py beside it
--   (UnitOfWork), which runs a command once for each idempotency key; WriteQueue is write_queue.py, the
--   queue whose worker runs each command in a transaction. A history of a queue is a list of Events. Its
--   connection (Connection) does what SQLite documents of transactions; BEGIN, COMMIT and ROLLBACK may raise.
-- - Asyncio has the futures that the queue and the multiplexer share with their callers.
-- - Prelude has the shared names, Boolean tests, lists and dicts; Result the code that raises.
--
-- How code is modelled: an exception is the `err` of a Result with the text or the values that its
-- message shows; a dict is the list of its items in order of insertion; a table is the list of its rows,
-- or a dict by its primary key; the present instant and new ids are arguments; an instant is a number of
-- microseconds, except in Runtime.Stamp, where the text itself matters. The hash of a JSON text, the
-- formats that re, uuid and datetime accept, json, SQLite's datetime and foreign keys are parameters.
--
-- Fuel: the search of _has_cycle has one call more than the graph has keys; each nested call has one
-- more key in `visiting`, so it never runs out, as the theorem on the search states. All other
-- functions recur on their data.
--
-- Not modelled: the gateways to model providers, the sandbox, the files of a workspace and the process
-- supervisor, which are input and output; the FastAPI backend, the desktop shell and its interface; the
-- generated RPC schemas; logging, backup and migrations. Of the sidecar's deterministic parts, the
-- policy validation and the ensemble executor of routing, the rest of the review repository,
-- the reverse calls of RPC sessions are left out, as are load_health_ledger of routing/health.py,
-- enqueue of runtime/scheduler.py and the runs that the lease cleanup marks lost.
pub mod Prelude
pub mod Result
pub mod Asyncio
pub mod StateMachine
pub mod Plan
pub mod Routing
pub mod Rpc
pub mod Rows
pub mod Runtime
pub mod Approvals
pub mod Review
pub mod Persistence
