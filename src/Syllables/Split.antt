-- ===== src/Syllables/Split.antt =====
-- Syllabification in lex_aux.cc, over the phone sets that its questions about phones read.
use speech_synthesis_system.Base.{
  ℕ, String, Bool, true, false, not, ◌&&◌, Outcome, ok, ◌>>=◌, List, [], ◌∷◌, reverse, leb, str_eq,
  ◌==◌, if◌then◌else◌,
}
use speech_synthesis_system.Phones.Set.{Symbols, PhoneError}
use speech_synthesis_system.Phones.State.{PhoneSets}
use speech_synthesis_system.Phones.Classes.{ph_is_vowel, ph_is_silence, ph_silence, ph_sonority}
use speech_synthesis_system.Syllables.Marks.{starts_as_vowel, v_stress}

pub record Syllable : Type 0 where
  pub phones : Symbols
  pub stress : ℕ

unfoldable pub syl_contains_vowel : PhoneSets → Symbols → Outcome PhoneError Bool
unfolding starts_as_vowel ph_is_silence
syl_contains_vowel s [] = ok false
syl_contains_vowel s (p ∷ ps) =
    let rest = syl_contains_vowel s ps in
    if starts_as_vowel p then ok true else do
      v ← ph_is_vowel p s
      if v then ok true else do q ← ph_is_silence p s; if q then ok false else rest

-- The sonority of the last phone of the syllable, which is reversed, and of the next two. There is a
-- last one, since the syllable contains a vowel.
unfoldable pub sonority_rises : PhoneSets → Symbols → String → String → Outcome PhoneError Bool
unfolding ph_sonority
sonority_rises s [] next second = ok false
sonority_rises s (last ∷ syl) next second = do
  p ← ph_sonority last s
  n ← ph_sonority next s
  nn ← ph_sonority second s
  ok (leb p n && leb n nn)

unfoldable pub breakable_before : PhoneSets → Symbols → String → Symbols → Outcome PhoneError Bool
unfolding sonority_rises
breakable_before s syl next later = do
  v ← ph_is_vowel next s
  if v
      then ok true
      else elim later [ [] ↦ ok false | second ∷ more ↦ sonority_rises s syl next second ]

unfoldable pub syl_breakable : PhoneSets → Symbols → Symbols → Outcome PhoneError Bool
unfolding syl_contains_vowel breakable_before
syl_breakable s syl [] = ok true
syl_breakable s syl (next ∷ later) = do
  remaining ← syl_contains_vowel s (next ∷ later)
  if not remaining then ok false else do
    has ← syl_contains_vowel s syl
    if has then breakable_before s syl next later else ok false

-- The loop of `lex_syllabify`; `syl` and `syls` are reversed.
unfoldable pub syllabify_loop :
    PhoneSets → Symbols → Symbols → List Syllable → ℕ → Outcome PhoneError (List Syllable)
unfolding syl_breakable
syllabify_loop s [] syl syls stress = ok (reverse syls)
syllabify_loop s (x ∷ p) syl syls stress =
    let broken =
      syllabify_loop s p [] (record { phones = reverse (x ∷ syl); stress = stress } ∷ syls) 0 in
    let unbroken = syllabify_loop s p (x ∷ syl) syls stress in
    do b ← syl_breakable s (x ∷ syl) p; if b then broken else unbroken

unfoldable pub lex_syllabify : PhoneSets → Symbols → Outcome PhoneError (List Syllable)
unfolding syllabify_loop
lex_syllabify s phones = syllabify_loop s phones [] [] 1

-- Each phone with its stress, `none` of the source being 0.
unfoldable pub split_stress : PhoneSets → Symbols → Outcome PhoneError (List (String × ℕ))
unfolding v_stress ph_silence
split_stress s [] = ok []
split_stress s (p ∷ ps) =
    let rest = split_stress s ps in
    let (nph, stress) = v_stress p in
    if str_eq nph "-"
    then (do sil ← ph_silence s; r ← rest; ok ((sil, stress) ∷ r))
    else (do r ← rest; ok ((nph, stress) ∷ r))

abbrev pub names_of : List (String × ℕ) → Symbols
names_of [] = []
names_of ((ph, stress) ∷ marked) = ph ∷ names_of marked

-- The loop of `lex_syllabify_phstress`: a silence is left out, and ends a syllable.
unfoldable pub phstress_loop :
    PhoneSets → List (String × ℕ) → Symbols → List Syllable → ℕ → Outcome PhoneError (List Syllable)
unfolding syl_breakable ph_silence
phstress_loop s [] syl syls stress = ok (reverse syls)
phstress_loop s ((ph, st) ∷ p) syl syls stress =
    let now = if st == 0 then stress else 1 in
    let at_silence =
      phstress_loop s p [] (record { phones = reverse syl; stress = now } ∷ syls) 0 in
    let broken =
      phstress_loop s p [] (record { phones = reverse (ph ∷ syl); stress = now } ∷ syls) 0 in
    let unbroken = phstress_loop s p (ph ∷ syl) syls now in
    do
      sil ← ph_silence s
      if str_eq ph sil
          then at_silence
          else do b ← syl_breakable s (ph ∷ syl) (names_of p); if b then broken else unbroken

unfoldable pub lex_syllabify_phstress : PhoneSets → Symbols → Outcome PhoneError (List Syllable)
unfolding split_stress phstress_loop
lex_syllabify_phstress s phones = do marked ← split_stress s phones; phstress_loop s marked [] [] 0
