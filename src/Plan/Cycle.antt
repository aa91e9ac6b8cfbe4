-- ===== src/Plan/Cycle.antt =====
-- `_has_cycle` of sidecar/ibreeze/orchestration/plan_validator.py answers yes exactly for the graphs with
-- a cycle, and always answers.
pub mod Relation
pub mod Search
pub mod Fuel
pub mod Decides
