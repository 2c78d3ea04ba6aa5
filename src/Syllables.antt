-- ===== src/Syllables.antt =====
-- Syllables of a pronunciation: src/modules/Lexicon/lex_aux.cc.
pub mod Marks
pub mod Split
pub mod Vowels
pub mod Phones
pub mod Answers
mod Tests
