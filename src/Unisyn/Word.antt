-- ===== src/Unisyn/Word.antt =====
-- `syllabify_word` of syllabify.cc: the loop over the phones of a word.
use speech_synthesis_system.Base.{
  ℕ, suc, ◌+◌, Bool, true, false, Option, none, some, List, [], ◌∷◌, ◌++◌, reverse, ◌==◌,
  if◌then◌else◌,
}
use speech_synthesis_system.Unisyn.Onset.{Phone, is_nucleus, make_onset}

-- The structure of a syllable. The onset is from the nucleus backwards.
pub record Structure : Type 0 where
  pub before : Option (List Phone)
  pub nucleus : Phone
  pub coda : List Phone

unfoldable pub nucleus_count : List Phone → ℕ
unfolding is_nucleus
nucleus_count [] = 0
nucleus_count (l ∷ ls) = let rest = nucleus_count ls in if is_nucleus l then suc rest else rest

abbrev pub is_at : ℕ → Option ℕ → Bool
is_at i none = false
is_at i (some j) = i == j

-- `make_coda` from place `i`, up to the item that `make_onset` returned.
unfoldable pub coda_from : ℕ → List Phone → Option ℕ → List Phone
coda_from i [] first_onset = []
coda_from i (x ∷ xs) first_onset =
    if is_at i first_onset then [] else x ∷ coda_from (i + 1) xs first_onset

-- `prev_struct` with `first_coda`, a place and the phones from there.
pub record Open : Type 0 where
  pub struct : Structure
  pub place : ℕ
  pub phones : List Phone

unfoldable pub make_coda : Option Open → Option ℕ → List Structure → List Structure
unfolding coda_from
make_coda none first_onset done = done
make_coda (some o) first_onset done =
    record o.struct { coda = coda_from o.place o.phones first_onset } ∷ done

abbrev pub is_none : Option Open → Bool
is_none none = true
is_none (some o) = false

-- The loop at place `i`; `done` are the structures before `prev_struct`, last first.
unfoldable pub word_loop :
    ℕ → List Phone → List Phone → Option Open → Option ℕ → List Structure → List Structure
unfolding is_nucleus make_onset make_coda
word_loop i before [] prev first_onset done = reverse (make_coda prev first_onset done)
word_loop i before (l ∷ ls) prev first_onset done =
    let made = make_onset (is_none prev) i before in
    let struct : Structure = record { before = made.taken; nucleus = l; coda = [] } in
    let opened : Open = record { struct = struct; place = i + 1; phones = ls } in
    let next =
      word_loop (i + 1) (l ∷ before) ls (some opened) made.returned
        (make_coda prev made.returned done) in
    let passed = word_loop (i + 1) (l ∷ before) ls prev first_onset done in
    if is_nucleus l then next else passed

-- The structures, beside the count that is returned.
unfoldable pub syllabify_word : List Phone → ℕ × List Structure
unfolding nucleus_count word_loop
syllabify_word phone =
    if nucleus_count phone == 0
    then (0, [])
    else (nucleus_count phone, word_loop 0 [] phone none none [])

abbrev pub onset_of : Option (List Phone) → List Phone
onset_of none = []
onset_of (some taken) = reverse taken

-- The phones of a structure: with `flat` all are daughters of one node, to which the nucleus has been
-- appended first.
unfoldable pub leaves : Bool → Structure → List Phone
leaves true s = s.nucleus ∷ (onset_of s.before ++ s.coda)
leaves false s = onset_of s.before ++ s.nucleus ∷ s.coda
