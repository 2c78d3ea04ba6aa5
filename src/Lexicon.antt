-- ===== src/Lexicon.antt =====
-- Lexicons: src/modules/Lexicon/lexicon.cc and src/include/lexicon.h.
pub mod Entries
pub mod Found
pub mod Registry
pub mod Cache
pub mod File
pub mod Region
pub mod Backing
pub mod Probe
pub mod Search
pub mod Sound
pub mod Lookup
pub mod Listed
pub mod Writing
pub mod Compiling
pub mod Preferred
pub mod Sharing
mod Tests
mod LookupTests
mod WriterTests
