-- ===== src/Phones.antt =====
-- Phone sets: src/arch/festival/Phone.cc and src/include/Phone.h.
pub mod Set
pub mod State
pub mod Classes
pub mod Numbers
pub mod Legal
pub mod Sharing
pub mod Reached
pub mod Silences
pub mod Mapping
pub mod Sonority
mod Tests
