-- ===== src/Unisyn/Divides.antt =====
-- `syllabify_word` of syllabify.cc puts every phone of a word into one syllable, around its nuclei.
use speech_synthesis_system.Base.{
  ℕ, suc, ◌+◌, ◌≡◌, ◌≢◌, refl, ap, subst, ◌∙◌, true, none, some, List, [], ◌∷◌, ◌++◌, reverse,
  reverse-cons, append_assoc, length, ◌==◌, arith, Bool-cases, inl, inr, All,
}
use speech_synthesis_system.Unisyn.Onset.{Phone, is_nucleus, make_onset}
use speech_synthesis_system.Unisyn.Word.{
  Structure, nucleus_count, make_coda, word_loop, syllabify_word, onset_of,
}
use speech_synthesis_system.Unisyn.Taken.{IsSound, IsConsonant, taken_of}
use speech_synthesis_system.Unisyn.Whole.{phones_of, IsProper, Finishes, word_loop-Finishes}

first_onset_of :
    (i : ℕ) (before : List Phone) → onset_of (make_onset true i before).taken ≡ reverse before
unfolding make_onset
first_onset_of i [] = refl
first_onset_of i (c ∷ before) = refl

first_taken :
    (i : ℕ) (before : List Phone)
    → All IsConsonant before
    → All IsConsonant (taken_of (make_onset true i before).taken)
unfolding make_onset
first_taken i [] plain = tt
first_taken i (c ∷ before) plain = plain

first_returned : (i : ℕ) (before : List Phone) → (make_onset true i before).returned ≡ none
unfolding make_onset
first_returned i [] = refl
first_returned i (c ∷ before) = refl

first_nucleus :
    (i : ℕ) (before : List Phone) (l : Phone) (ls : List Phone)
    → All IsConsonant before
    → is_nucleus l ≡ true
    → All IsSound (l ∷ ls)
    → Finishes [] (reverse before ++ l ∷ ls) (suc (nucleus_count ls)) (
        word_loop
          (i + 1)
          (l ∷ before)
          ls
          (some (record {
            struct = record { before = (make_onset true i before).taken; nucleus = l; coda = [] };
            place = i + 1;
            phones = ls;
          }))
          (make_onset true i before).returned
          [])
first_nucleus i before l ls plain vowel sound =
    let s : Structure = record {
      before = (make_onset true i before).taken;
      nucleus = l;
      coda = [];
    } in
    rw (← first_onset_of i before) (
      word_loop-Finishes (i + 1) (l ∷ before) ls s (i + 1) [] before ls
        (make_onset true i before).returned [] refl refl (omega arith)
        (rw (first_returned i before) tt) tt vowel (first_taken i before plain) tt sound.1 sound.0)

word_loop-start :
    (i : ℕ) (before ls : List Phone)
    → All IsConsonant before
    → All IsSound ls
    → nucleus_count ls ≢ 0
    → Finishes [] (reverse before ++ ls) (nucleus_count ls) (word_loop i before ls none none [])
unfolding word_loop make_coda nucleus_count
word_loop-start i before [] plain sound some_nucleus = absurd (some_nucleus refl)
word_loop-start i before (l ∷ ls) plain sound some_nucleus = elim (Bool-cases (is_nucleus l)) [
  | inr e ↦ rw e (
      subst (λ t. Finishes [] t (nucleus_count ls) (word_loop (i + 1) (l ∷ before) ls none none []))
        (ap (λ t. t ++ ls) (reverse-cons l before) ∙ append_assoc (reverse before) (l ∷ []) ls)
        (word_loop-start (i + 1) (l ∷ before) ls (e, plain) sound.1 (rw e at some_nucleus)))
  | inl e ↦ rw e (first_nucleus i before l ls plain e sound)
]

-- The structures of a word: its phones in order, one nucleus in each, as many as it has.
pub record Divides (phones : List Phone) (structs : List Structure) : Type 0 where
  pub in_order : phones_of structs ≡ phones
  pub proper : All IsProper structs
  pub counted : length structs ≡ nucleus_count phones

-- For a word with a nucleus and in which no nucleus is called `s`, `syllabify_word` returns the number of its
-- nuclei, and makes as many syllables, each with one nucleus, that hold the phones of the word in order.
pub syllabify_word-Divides :
    (phones : List Phone)
    → All IsSound phones
    → nucleus_count phones ≢ 0
    → ((syllabify_word phones).0 ≡ nucleus_count phones) × Divides phones (syllabify_word phones).1
unfolding syllabify_word
syllabify_word-Divides phones sound n = elim (Bool-cases (nucleus_count phones == 0)) [
  | inl e ↦ absurd (n (ground (arith, e)))
  | inr e ↦ rw e (
    refl,
    let r = word_loop-start 0 [] phones tt sound n in
        record { in_order = r.in_order; proper = r.proper; counted = omega (arith, r.counted) },
  )
]
