-- ===== src/Unisyn.antt =====
-- Syllable structure of a word's phones: src/modules/UniSyn_phonology/syllabify.cc.
pub mod Onset
pub mod Word
pub mod Taken
pub mod Whole
pub mod Divides
mod Tests
