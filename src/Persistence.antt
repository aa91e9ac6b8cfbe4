-- ===== src/Persistence.antt =====
-- The sidecar's write path: one transaction for each command, replayed by its idempotency key.
pub mod Idempotency
pub mod UnitOfWork
pub mod Connection
pub mod WriteQueue
pub mod Replay
pub mod Retry
mod Tests
mod RetryTests
