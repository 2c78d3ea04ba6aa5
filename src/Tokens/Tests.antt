-- ===== src/Tokens/Tests.antt =====
-- The theorems on tokens at calls that are written out for a few texts.
use Prim.Native.String.{len, slice, find}
use speech_synthesis_system.Base.{
  ℤ, pos, ◌+◌, String, ◌≡◌, refl, false, some, List, [], ◌∷◌, str_eq, if◌then◌else◌, arith,
}
use speech_synthesis_system.Tokens.Words.{Settings, num_2_words}
use speech_synthesis_system.Tokens.Calls.{EstCalls, Token}
use speech_synthesis_system.Tokens.Spelling.{change_last, say_num_as_ordinal}
use speech_synthesis_system.Tokens.Spoken.{read_integer, num_2_words-read_integer}
use speech_synthesis_system.Tokens.Ordinals.{cardinal_word, say_num_as_ordinal-read_integer}

abbrev british : Settings
british = record { unknown_word_name = "unknown"; language = "britishenglish"; letter_pos = "nn" }

abbrev int_of : String → ℤ
int_of t = if str_eq t "42" then pos 42 else if str_eq t "1984" then pos 1984 else pos 0

-- The parts of a text around the first occurrence of another, and tests that know few texts.
abbrev toy_calls : EstCalls
toy_calls = record {
  atoi = int_of;
  before = λ s t. slice s 0 (find s t);
  after = λ s t. slice s (find s t + len t) (len s);
  at = λ s i n. slice s i (i + n);
  contains = λ s t. false;
  contains_regex = λ s t. false;
  matches = λ s t. str_eq t "-?[0-9]+";
  gsub = λ s t u. s;
  downcase = λ s. s;
  stringexplode = λ s. s ∷ [];
  symbolexplode = λ s. s ∷ [];
  rxint = "-?[0-9]+";
  rxalpha = "[A-Za-z]+";
}

-- 2147 millions are the most.
num_2_words-read_integer_example :
    (ws : List String) × (num_2_words british (pos 2147483001) ≡ some ws)
    × (read_integer ws ≡ some (pos 2147483001))
num_2_words-read_integer_example = num_2_words-read_integer british (pos 2147483001) (omega arith)

say_num_as_ordinal-read_integer_example :
    (ordinals : List String) × (words : List String) × (say_num_as_ordinal toy_calls british "42"
      ≡ some ordinals)
    × (change_last cardinal_word ordinals ≡ some words)
    × (read_integer words ≡ some (pos 42))
say_num_as_ordinal-read_integer_example =
    say_num_as_ordinal-read_integer toy_calls british (λ s e. refl) "42" (omega arith)

abbrev year_token : Token
year_token = record { name = "1984"; token_pos = "0"; prepunctuation = "("; punc = "," }
