-- ===== src/Plan/Accepts.antt =====
-- `validate_plan` of sidecar/ibreeze/orchestration/plan_validator.py reports nothing exactly for the plans
-- that satisfy every condition.
pub mod Conditions
pub mod Parts
pub mod Tasks
pub mod Whole
