-- ===== src/Lts.antt =====
-- Letter-to-sound rules: src/modules/Lexicon/lts_rules.cc.
pub mod Context
pub mod Language
pub mod Deciding
pub mod Rules
pub mod Normalize
pub mod Derivation
pub mod Centre
pub mod Applying
pub mod Reading
pub mod Misparsed
pub mod Alphabet
pub mod Registry
pub mod Lookup
mod Tests
