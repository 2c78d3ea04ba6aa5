-- ===== src/Tokens/Expanding.antt =====
-- `builtin_word_it` and `word_it` of token.cc: the words that a token stands for.
use Prim.Native.String.{◌++◌ as ◌and_text◌, len}
use speech_synthesis_system.Base.{
  ℕ, zero, suc, ◌-◌, String, Bool, true, false, ◌&&◌, ◌||◌, not, Option, none, some, List, [], ◌∷◌,
  ◌++◌, reverse, str_eq, ltb, ◌==◌, if◌then◌else◌,
}
use speech_synthesis_system.Tokens.Words.{Settings, ◌>>=◌}
use speech_synthesis_system.Tokens.Calls.{EstCalls, Token, Word, plain, with_pos}
use speech_synthesis_system.Tokens.Spelling.{
  only_punc, remove_punct, plain_words, say_as_digits, say_as_letters, say_num_as_ordinal,
  say_num_as_words, say_num_as_year,
}

-- The branches of `builtin_word_it`, in their order. Those that cut the text at a sign hold the sign, and
-- the word that is said for it.
pub data Branch : Type 0 where
  empty_token single_letter in_lexicon ordinal_number year_number digit_string integer : Branch
  integer_ordinal commaed_point commaed apostrophe_s point_number as_letters : Branch
  no_punct_letters as_is punctuation internet_address front_symbol rear_symbol : Branch
  other_token : Branch
  cut_at : String → List Word → Branch
  without : String → Branch

-- The first branch whose test is true.
abbrev pub first_that : List (Bool × Branch) → Branch → Branch
first_that [] default = default
first_that ((test, branch) ∷ rest) default = if test then branch else first_that rest default

module _ (calls : EstCalls) where
  unfoldable pub is_acronym : String → Bool
  is_acronym tok =
      calls.matches tok "[A-Z][A-Z]+"
      && (not (calls.contains_regex tok "[AEIOUY]")
          || (not (calls.contains_regex tok "[^AEIOU][AEIOU][^AEIOU]") && ltb (len tok) 5))

  abbrev pub is_commaed : String → Bool
  is_commaed tok =
      calls.matches tok "[0-9][0-9]?[0-9]?,\\([0-9][0-9][0-9],\\)*[0-9][0-9][0-9]\\(\\.[0-9]+\\)?"

  -- The tests and branches for a text that is not empty, in their order; `known` is the answer of
  -- `in_current_lexicon` for a text and NIL.
  abbrev pub tests_of : (String → Bool) → Token → String → List (Bool × Branch)
  tests_of known token tok =
      (known (calls.downcase tok) && (not (str_eq tok token.name) && len tok == 1), single_letter)
      ∷ (known (calls.downcase tok), in_lexicon)
      ∷ (str_eq token.token_pos "ordinal", ordinal_number)
      ∷ (str_eq token.token_pos "year", year_number)
      ∷ (str_eq token.token_pos "digits" || calls.matches tok "0[0-9]+", digit_string)
      ∷ (calls.matches tok calls.rxint, integer)
      ∷ (calls.matches tok "[0-9]*\\(1st\\|2nd\\|3rd\\|[0-9]th\\)", integer_ordinal)
      ∷ (is_commaed tok && calls.contains tok ".", commaed_point)
      ∷ (is_commaed tok, commaed)
      ∷ (calls.matches tok ".*'[sS]$", apostrophe_s)
      ∷ (calls.matches tok "[0-9]*\\.[0-9]+", point_number)
      ∷ (is_acronym tok, as_letters)
      ∷ (calls.matches tok "\\([A-Za-z]\\.\\)+[A-Za-z]\\.?", no_punct_letters)
      ∷ (
        calls.matches tok calls.rxalpha && not (calls.matches tok ".*[AEIOUYaeiouy].*"),
        as_letters,
      )
      ∷ (calls.matches tok calls.rxalpha, as_is)
      ∷ (only_punc tok, punctuation)
      ∷ (calls.contains tok "-", cut_at "-" [])
      ∷ (calls.contains tok ".", internet_address)
      ∷ (calls.contains tok "/", cut_at "/" (plain "slash" ∷ []))
      ∷ (calls.contains tok "&", cut_at "&" (plain "ampersand" ∷ []))
      ∷ (calls.contains tok "_", cut_at "_" (plain "underscore" ∷ []))
      ∷ (calls.contains tok "'", without "'")
      ∷ (calls.contains tok "`", cut_at "`" [])
      ∷ (calls.contains tok "\"", cut_at "\"" [])
      ∷ (calls.contains tok ",", cut_at "," [])
      ∷ (calls.contains tok "(", cut_at "(" [])
      ∷ (calls.contains tok ")", cut_at ")" [])
      ∷ (calls.matches tok "^[^a-zA-Z].+", front_symbol)
      ∷ (calls.matches tok ".+[^a-zA-Z]$", rear_symbol)
      ∷ []

  unfoldable pub branch_of : (String → Bool) → Token → String → Branch
  unfolding is_acronym only_punc
  branch_of known token tok =
      if str_eq tok "" then empty_token else first_that (tests_of known token tok) other_token

  -- The words of two parts, which need not be there, with some between them.
  abbrev pub appended : Option (List Word) → List Word → Option (List Word) → Option (List Word)
  appended front between back = do f ← front; b ← back; some (f ++ between ++ b)

  -- The loop for internet addresses; `word_of` gives the words of a text, and the fuel bounds the dots.
  unfoldable pub dotted : (String → Option (List Word)) → ℕ → String → Option (List Word)
  dotted word_of zero tok = none
  dotted word_of (suc fuel) tok = elim (calls.contains tok ".") [
    | true ↦
        appended (word_of (calls.before tok ".")) (plain "dot" ∷ [])
          (dotted word_of fuel (calls.after tok "."))
    | false ↦ word_of tok
  ]

  module _ (st : Settings) where
    -- The loop over the digits behind the point: each number is put in front, and the list reversed.
    unfoldable pub point_digits : List String → List Word → Option (List Word)
    unfolding say_num_as_words
    point_digits [] ap = some (reverse ap)
    point_digits (c ∷ cs) ap = do words ← say_num_as_words calls st c; point_digits cs (words ++ ap)

    -- What the branch does; `word_of` is `word_it` of the same token.
    unfoldable pub take_branch :
        (String → Option (List Word)) → ℕ → String → Branch → Option (List Word)
    unfolding say_as_digits say_as_letters say_num_as_ordinal say_num_as_words say_num_as_year
        point_digits dotted
    take_branch word_of fuel tok empty_token = some []
    take_branch word_of fuel tok single_letter = some (with_pos tok st.letter_pos ∷ [])
    take_branch word_of fuel tok in_lexicon = some (plain tok ∷ [])
    take_branch word_of fuel tok ordinal_number = plain_words (say_num_as_ordinal calls st tok)
    take_branch word_of fuel tok year_number = say_num_as_year calls st tok
    take_branch word_of fuel tok digit_string = some (say_as_digits calls st tok)
    take_branch word_of fuel tok integer = say_num_as_words calls st tok
    take_branch word_of fuel tok integer_ordinal =
        plain_words (say_num_as_ordinal calls st (calls.at tok 0 (len tok - 2)))
    take_branch word_of fuel tok commaed_point =
        word_of
          (remove_punct calls st (calls.before tok ".") and_text ("." and_text calls.after tok "."))
    take_branch word_of fuel tok commaed = say_num_as_words calls st (remove_punct calls st tok)
    take_branch word_of fuel tok apostrophe_s =
        appended (word_of (calls.at tok 0 (len tok - 2))) (plain "'s" ∷ []) (some [])
    take_branch word_of fuel tok point_number =
        appended (say_num_as_words calls st (calls.before tok ".")) (plain "point" ∷ [])
          (point_digits (calls.stringexplode (calls.after tok ".")) [])
    take_branch word_of fuel tok as_letters = some (say_as_letters calls st tok)
    take_branch word_of fuel tok no_punct_letters =
        some (say_as_letters calls st (remove_punct calls st tok))
    take_branch word_of fuel tok as_is = some (plain tok ∷ [])
    take_branch word_of fuel tok punctuation = plain_words (some (calls.stringexplode tok))
    take_branch word_of fuel tok internet_address = dotted word_of fuel tok
    take_branch word_of fuel tok front_symbol =
        appended (some (say_as_letters calls st (calls.at tok 0 1))) []
          (word_of (calls.at tok 1 (len tok - 1)))
    take_branch word_of fuel tok rear_symbol =
        appended (word_of (calls.at tok 0 (len tok - 1))) []
          (some (say_as_letters calls st (calls.at tok (len tok - 1) 1)))
    take_branch word_of fuel tok other_token =
        some (say_as_letters calls st (remove_punct calls st tok))
    take_branch word_of fuel tok (cut_at sign between) =
        appended (word_of (calls.before tok sign)) between (word_of (calls.after tok sign))
    take_branch word_of fuel tok (without sign) =
        word_of (calls.before tok sign and_text calls.after tok sign)

    -- `user` is the function in `token_to_words`, if there is one; it may call the builtin one.
    module _ (known : String → Bool) (user : Option (Token → String → Option (List Word))) where
      abbrev pub user_or : Token → (String → Option (List Word)) → String → Option (List Word)
      user_or token builtin tok = elim user [ none ↦ builtin tok | some f ↦ f token tok ]

      -- The fuel bounds the depth of the calls; `none` stands for a call that does not return.
      unfoldable pub builtin_word_it : ℕ → Token → String → Option (List Word)
      unfolding take_branch branch_of
      builtin_word_it zero token tok = none
      builtin_word_it (suc fuel) token tok =
          take_branch (user_or token (builtin_word_it fuel token)) (suc fuel) tok
            (branch_of known token tok)

      -- One more than the length of the text is enough fuel.
      unfoldable pub word_it : Token → String → Option (List Word)
      unfolding builtin_word_it
      word_it token tok = user_or token (builtin_word_it (suc (len tok)) token) tok
