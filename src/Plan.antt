-- ===== src/Plan.antt =====
-- sidecar/ibreeze/orchestration/plan_validator.py: the data of a plan, the search for cycles, and the
-- validation rules.
pub mod Model
pub mod Text
pub mod Graph
pub mod Validate
pub mod Cycle
pub mod Accepts
mod Tests
