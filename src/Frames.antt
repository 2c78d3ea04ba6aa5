-- ===== src/Frames.antt =====
-- The choice of frames for the phones of the diphone synthesizer: src/modules/diphone/di_select.cc.
pub mod Select
pub mod Marks
pub mod Exact
mod Tests
