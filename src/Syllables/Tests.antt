-- ===== src/Syllables/Tests.antt =====
-- Runs of the syllabification, and the theorems at a concrete word.
use speech_synthesis_system.Base.{String, ◌≡◌, refl, some, ok, List, [], ◌∷◌, inl, inr, All}
use speech_synthesis_system.Phones.Set.{Symbols, Phone, PhoneSet, member}
use speech_synthesis_system.Phones.State.{PhoneSets, current_phoneset}
use speech_synthesis_system.Phones.Classes.{ph_has}
use speech_synthesis_system.Syllables.Marks.{v_stress, starts_as_vowel}
use speech_synthesis_system.Syllables.Split.{Syllable, lex_syllabify, lex_syllabify_phstress}
use speech_synthesis_system.Syllables.Phones.{IsSyllabified}
use speech_synthesis_system.Syllables.Answers.{IsKnown, lex_syllabify-IsSyllabified}
use speech_synthesis_system.Syllables.Vowels.{HasVowel, lex_syllabify-HasVowel}

abbrev phone_of : String → String → String → String → Phone
phone_of name vc ctype cvox = record {
  name = name;
  features = ("vc", vc) ∷ ("ctype", ctype) ∷ ("cvox", cvox) ∷ [];
}

abbrev vowel : Phone
vowel = phone_of "a" "+" "0" "0"

abbrev nasal : Phone
nasal = phone_of "n" "-" "n" "+"

abbrev stop : Phone
stop = phone_of "t" "-" "s" "-"

abbrev pause : Phone
pause = phone_of "pau" "0" "0" "0"

abbrev toy_set : PhoneSet
toy_set = record {
  psetname = "toy";
  silences = "pau" ∷ [];
  feature_defs = [];
  phones = ("t", stop) ∷ ("n", nasal) ∷ ("a", vowel) ∷ ("pau", pause) ∷ [];
}

abbrev toy_sets : PhoneSets
toy_sets = record { built = toy_set ∷ []; set_list = ("toy", 0) ∷ []; current = some 0 }

abbrev word : Symbols
word = "n" ∷ "a" ∷ "n" ∷ "t" ∷ "a" ∷ "n" ∷ []

two_syllables :
    lex_syllabify toy_sets word
    ≡ ok (
        record { phones = "n" ∷ "a" ∷ "n" ∷ "t" ∷ []; stress = 1 }
        ∷ record { phones = "a" ∷ "n" ∷ []; stress = 0 }
        ∷ [])
unfolding lex_syllabify ph_has
two_syllables = refl

marked_vowel : v_stress "ah2" ≡ ("ah", 2)
unfolding v_stress
marked_vowel = refl

-- The stress is on the second syllable, and a break ends one.
second_stressed :
    lex_syllabify_phstress toy_sets ("n" ∷ "a0" ∷ "t" ∷ "a1" ∷ "-" ∷ "a" ∷ [])
    ≡ ok (
        record { phones = "n" ∷ "a" ∷ "t" ∷ []; stress = 0 }
        ∷ record { phones = "a" ∷ []; stress = 1 }
        ∷ record { phones = "a" ∷ []; stress = 0 }
        ∷ [])
unfolding lex_syllabify_phstress ph_has
second_stressed = refl

word-IsKnown : All (IsKnown toy_set) word
unfolding member
word-IsKnown = (
  (nasal, refl),
  ((vowel, refl), ((nasal, refl), ((stop, refl), ((vowel, refl), ((nasal, refl), tt))))),
)

lex_syllabify-IsSyllabified_example :
    (syls : List Syllable) × (lex_syllabify toy_sets word ≡ ok syls) × IsSyllabified word syls
unfolding current_phoneset
lex_syllabify-IsSyllabified_example =
    lex_syllabify-IsSyllabified toy_sets toy_set word refl word-IsKnown

lex_syllabify-HasVowel_example :
    (syls : List Syllable) × (lex_syllabify toy_sets word ≡ ok syls)
    × All (λ (syl : Syllable). HasVowel toy_sets syl.phones) syls
unfolding current_phoneset starts_as_vowel
lex_syllabify-HasVowel_example =
    lex_syllabify-HasVowel toy_sets toy_set word refl word-IsKnown (inr (inl (inl refl)))
