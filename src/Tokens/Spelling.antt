-- ===== src/Tokens/Spelling.antt =====
-- Digits, letters, punctuation, ordinals and years of token.cc.
use Prim.Native.String.{[] as no_text, ◌∷◌ as ◌then_text◌, ◌++◌ as ◌and_text◌, len, slice}
use text.Mathlib.Text.{starts_with}
use speech_synthesis_system.Base.{
  ℤ, pos, negsuc, ℕ, ◌-◌, ◌/◌, ◌%◌, String, Bool, true, ◌&&◌, Option, none, some, List, [], ◌∷◌,
  ◌++◌, map, str_eq, ltb, ◌==◌, if◌then◌else◌,
}
use speech_synthesis_system.Syllables.Marks.{has_char}
use speech_synthesis_system.Tokens.Words.{Settings, num_2_words, ◌>>=◌}
use speech_synthesis_system.Tokens.Calls.{EstCalls, Word, plain, with_pos}

abbrev pub val_of : String → List (String × String) → Option String
val_of key [] = none
val_of key ((k, v) ∷ rest) = if str_eq key k then some v else val_of key rest

abbrev pub digit_names : List (String × String)
digit_names =
    ("0", "zero")
    ∷ ("1", "one")
    ∷ ("2", "two")
    ∷ ("3", "three")
    ∷ ("4", "four")
    ∷ ("5", "five")
    ∷ ("6", "six")
    ∷ ("7", "seven")
    ∷ ("8", "eight")
    ∷ ("9", "nine")
    ∷ []

abbrev pub ordinal_names : List (String × String)
ordinal_names =
    ("zero", "zeroth")
    ∷ ("one", "first")
    ∷ ("two", "second")
    ∷ ("three", "third")
    ∷ ("four", "fourth")
    ∷ ("five", "fifth")
    ∷ ("six", "sixth")
    ∷ ("seven", "seventh")
    ∷ ("eight", "eighth")
    ∷ ("nine", "ninth")
    ∷ ("ten", "tenth")
    ∷ ("eleven", "eleventh")
    ∷ ("twelve", "twelfth")
    ∷ []

-- `streq(&word[strlen(word)-n],end)`, for a word that is not shorter than its end.
abbrev pub ends_with : String → String → Bool
ends_with word end = str_eq (slice word (len word - len end) (len word)) end

-- The loop of `only_punc`.
unfoldable pub only_chars : String → String → Bool
unfolding has_char
only_chars no_text chars = true
only_chars (c then_text s) chars = has_char c chars && only_chars s chars

unfoldable pub only_punc : String → Bool
unfolding only_chars
only_punc tok = only_chars tok "'`.,:;!?{}[]()-\""

-- The ordinal of a word from the one in the list, if it is there, and what stands before its first `ty`.
-- Words that end in `illion`, and all that are left, get `th`.
abbrev pub ordinal_from : Option String → String → String → String
ordinal_from (some ordinal) before_ty lastword = ordinal
ordinal_from none before_ty lastword =
    if ends_with lastword "teen"
    then lastword and_text "th"
    else if ends_with lastword "ty"
    then before_ty and_text "tieth"
    else if str_eq lastword "hundred"
    then "hundredth"
    else if str_eq lastword "thousand"
    then "thousandth"
    else lastword and_text "th"

-- The words with the last one changed. Of no words the last one is no text: `none`.
abbrev pub change_last : (String → String) → List String → Option (List String)
change_last f [] = none
change_last f (w ∷ []) = some (f w ∷ [])
change_last f (w ∷ v ∷ ws) = do rest ← change_last f (v ∷ ws); some (w ∷ rest)

abbrev pub plain_words : Option (List String) → Option (List Word)
plain_words ws = do l ← ws; some (map plain l)

module _ (calls : EstCalls) (st : Settings) where
  abbrev pub digit_word : String → Word
  digit_word c = elim (val_of c digit_names) [
    | some name ↦ plain name
    | none ↦ with_pos c st.letter_pos
  ]

  unfoldable pub say_as_digits : String → List Word
  say_as_digits word = map digit_word (calls.stringexplode word)

  -- `car` of a list, NIL where it is empty.
  abbrev pub first_word : List Word → Word
  first_word [] = plain "nil"
  first_word (w ∷ ws) = w

  abbrev pub letter_word : String → Word
  letter_word c =
      if calls.matches c "[0-9]" then first_word (say_as_digits c) else with_pos c st.letter_pos

  unfoldable pub say_as_letters : String → List Word
  unfolding say_as_digits
  say_as_letters word = map letter_word (calls.stringexplode word)

  abbrev pub remove_punct : String → String
  remove_punct tok = calls.gsub tok "\\(\\]\\|[-[.,!?]\\)+" ""

  unfoldable pub ordinal_word : String → String
  ordinal_word lastword =
      ordinal_from (val_of lastword ordinal_names) (calls.before lastword "ty") lastword

  unfoldable pub say_num_as_ordinal : String → Option (List String)
  unfolding num_2_words ordinal_word
  say_num_as_ordinal num = do
    words ← num_2_words st (calls.atoi num)
    change_last ordinal_word words

  unfoldable pub say_num_as_words : String → Option (List Word)
  unfolding num_2_words say_as_digits
  say_num_as_words num =
      if ltb 9 (len num)
      then (if starts_with num "-"
          then some (plain "minus" ∷ say_as_digits (calls.after num "-"))
          else some (say_as_digits num))
      else plain_words (num_2_words st (calls.atoi num))

  -- The words of two numbers with some between them.
  abbrev pub two_numbers : ℕ → List String → ℕ → Option (List Word)
  two_numbers a between b = plain_words (do
    front ← num_2_words st (pos a)
    back ← num_2_words st (pos b)
    some (front ++ between ++ back))

  abbrev pub number_and : ℕ → String → Option (List Word)
  number_and a word = plain_words (do front ← num_2_words st (pos a); some (front ++ word ∷ []))

  -- A year that is not negative, from 100 on.
  unfoldable pub year_words : ℕ → Option (List Word)
  unfolding num_2_words
  year_words iword =
      if ltb (iword % 1000) 10
      then (if iword % 1000 == 0
          then number_and (iword / 1000) "thousand"
          else two_numbers (iword / 1000) ("thousand" ∷ "and" ∷ []) (iword % 1000))
      else if iword % 100 == 0
      then number_and (iword / 100) "hundred"
      else if ltb (iword % 100) 10
      then two_numbers (iword / 100) ("o" ∷ []) (iword % 100)
      else two_numbers (iword / 100) [] (iword % 100)

  -- A negative number is below 100.
  abbrev pub year_of : ℤ → Option (List Word)
  year_of (pos n) = if ltb n 100 then plain_words (num_2_words st (pos n)) else year_words n
  year_of (negsuc n) = plain_words (num_2_words st (negsuc n))

  unfoldable pub say_num_as_year : String → Option (List Word)
  unfolding say_num_as_words year_words
  say_num_as_year num =
      if ltb 4 (len num)
      then say_num_as_words num
      else if calls.matches num "00"
      then some (plain "o" ∷ plain "o" ∷ [])
      else if calls.matches num "0[0-9]"
      then (do ws ← plain_words (num_2_words st (calls.atoi num)); some (plain "o" ∷ ws))
      else year_of (calls.atoi num)
