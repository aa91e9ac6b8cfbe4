-- ===== src/Review.antt =====
-- The review domain of the sidecar.
pub mod Repository
pub mod Locking
mod Tests
