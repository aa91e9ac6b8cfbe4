-- ===== src/Runtime.antt =====
-- The sidecar's runtime of agent runs.
pub mod Stamp
pub mod Scheduler
pub mod Recovery
