-- ===== src/TargetCost/Flat.antt =====
-- The target cost over packed numbers: src/modules/MultiSyn/EST_FlatTargetCost.cc.
pub mod Numbers
pub mod Packing
pub mod Costs
pub mod Hash
pub mod Alike
pub mod Places
pub mod Packed
pub mod Marked
pub mod Agreeing
pub mod Itself
mod Tests
