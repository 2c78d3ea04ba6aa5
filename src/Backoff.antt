-- ===== src/Backoff.antt =====
-- Backing off to a diphone that the voice has: src/modules/MultiSyn/DiphoneBackoff.cc, and the loop of
-- src/modules/MultiSyn/DiphoneUnitVoice.cc that calls it.
pub mod Rules
pub mod Progress
pub mod Cycle
mod Tests
