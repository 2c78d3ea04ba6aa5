-- ===== src/Tokens.antt =====
-- The words of tokens, and numbers in words: src/modules/Text/token.cc.
pub mod Words
pub mod Calls
pub mod Spelling
pub mod Expanding
pub mod Stream
pub mod Reading
pub mod Thousands
pub mod Spoken
pub mod Worded
pub mod Ordinals
pub mod Laws
pub mod Fitting
pub mod Returning
pub mod Ending
pub mod Streamed
mod Tests
mod LawTests
