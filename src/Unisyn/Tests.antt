-- ===== src/Unisyn/Tests.antt =====
-- Runs on the phones of words, and the theorem at one of them.
use speech_synthesis_system.Base.{ℕ, arith, String, ◌≡◌, refl, true, none, some, List, [], ◌∷◌}
use speech_synthesis_system.Unisyn.Onset.{Phone, legal_c2}
use speech_synthesis_system.Unisyn.Word.{nucleus_count, syllabify_word, leaves}
use speech_synthesis_system.Unisyn.Divides.{Divides, syllabify_word-Divides}

abbrev consonant : String → String → String → Phone
consonant name manner voicing = record {
  name = name;
  syllabic = "-";
  manner = manner;
  voicing = voicing;
  stress_num = 0;
}

abbrev vowel : String → ℕ → Phone
vowel name stress = record {
  name = name;
  syllabic = "+";
  manner = "vowel";
  voicing = "+";
  stress_num = stress;
}

abbrev s : Phone
s = consonant "s" "fricative" "-"

abbrev t : Phone
t = consonant "t" "stop" "-"

abbrev k : Phone
k = consonant "k" "stop" "-"

abbrev f : Phone
f = consonant "f" "fricative" "-"

abbrev r : Phone
r = consonant "r" "approximant" "+"

abbrev word : List Phone
word = vowel "e" 1 ∷ k ∷ s ∷ t ∷ r ∷ vowel "@" 0 ∷ []

-- Three consonants go to the second syllable, and the first one stays with the first.
two_syllables :
    (syllabify_word word).1
    ≡ record { before = none; nucleus = vowel "e" 1; coda = k ∷ [] }
      ∷ record { before = some (r ∷ t ∷ s ∷ []); nucleus = vowel "@" 0; coda = [] }
      ∷ []
unfolding syllabify_word
two_syllables = refl

-- `flat` puts a nucleus before its onset.
flat_order :
    leaves true (record { before = some (r ∷ t ∷ []); nucleus = vowel "@" 0; coda = k ∷ [] })
    ≡ vowel "@" 0 ∷ t ∷ r ∷ k ∷ []
unfolding leaves
flat_order = refl

-- An `f` is legal before a stop, which is no approximant.
stop_after_f : legal_c2 k f ≡ true
unfolding legal_c2
stop_after_f = refl

syllabify_word-Divides_example :
    ((syllabify_word word).0 ≡ nucleus_count word) × Divides word (syllabify_word word).1
unfolding nucleus_count
syllabify_word-Divides_example =
    syllabify_word-Divides word
      ((λ h. refl), ((λ h. refl), ((λ h. cc h), ((λ h. refl), ((λ h. refl), ((λ h. refl), tt))))))
      (λ h. omega arith)
