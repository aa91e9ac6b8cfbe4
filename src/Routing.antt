-- ===== src/Routing.antt =====
-- The sidecar's routing of model calls over the deployments of a provider.
pub mod Health
pub mod History
pub mod Bench
pub mod Engine
pub mod Retry
pub mod Classifier
mod Tests
