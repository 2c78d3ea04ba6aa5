-- ===== src/Tokens/Calls.antt =====
-- What token.cc calls of the EST and SIOD libraries, the tokens and the words it makes.
use speech_synthesis_system.Base.{ℤ, ℕ, String, Bool, List}

-- The operations of EST_String and EST_Regex; a pattern is its text. `rxint` and `rxalpha` are the library's
-- own patterns, of an integer and of letters.
pub record EstCalls : Type 0 where
  pub atoi : String → ℤ
  pub before : String → String → String
  pub after : String → String → String
  pub at : String → ℕ → ℕ → String
  pub contains : String → String → Bool
  pub contains_regex : String → String → Bool
  pub matches : String → String → Bool
  pub gsub : String → String → String → String
  pub downcase : String → String
  pub stringexplode : String → List String
  pub symbolexplode : String → List String
  pub rxint : String
  pub rxalpha : String

-- A token with the texts of the features that are asked, "0" where it has none.
pub record Token : Type 0 where
  pub name : String
  pub token_pos : String
  pub prepunctuation : String
  pub punc : String

-- A symbol, or a name with its part of speech.
pub data Word : Type 0 where
  plain : String → Word
  with_pos : String → String → Word
