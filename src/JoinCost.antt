-- ===== src/JoinCost.antt =====
-- The cache of join costs: src/modules/MultiSyn/EST_JoinCostCache.cc and EST_JoinCostCache.h.
pub mod Cache
pub mod Index
pub mod Store
pub mod Overflow
pub mod Compute
pub mod Cached
mod Tests
