-- ===== src/Builtin.antt =====
-- The builtin feature functions of items: src/modules/base/ff.cc.
pub mod Items
pub mod Sizes
pub mod Breaks
pub mod Counts
pub mod Times
pub mod Durations
pub mod Within
pub mod Loops
pub mod Phrase
mod Tests
mod TimeTests
mod SyllableTests
