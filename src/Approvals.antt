-- ===== src/Approvals.antt =====
-- Human approvals of the sidecar: external writes and retries after a crash.
pub mod Service
pub mod History
pub mod Decisions
pub mod Steps
mod Tests
