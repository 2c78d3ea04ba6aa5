-- ===== src/TargetCost.antt =====
-- The costs of using a recorded unit for a target: src/modules/MultiSyn/EST_TargetCost.cc.
pub mod Contexts
pub mod Costs
pub mod Flat
pub mod Itself
mod Tests
