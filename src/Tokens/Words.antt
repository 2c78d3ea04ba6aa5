-- ===== src/Tokens/Words.antt =====
-- Numbers in words: `num_2_words`, `say_num_as_ordinal` and `say_num_as_year` of token.cc.
use speech_synthesis_system.Base.{
  ℤ, pos, negsuc, ℕ, zero, suc, ◌-◌, ◌/◌, ◌%◌, ◌^◌, String, Option, none, some, List, [], ◌∷◌, ◌++◌,
  get_elem?, str_eq, ltb, ◌==◌, if◌then◌else◌,
}

-- `token.unknown_word_name`, the parameter `Language`, and `token.letter_pos`.
pub record Settings : Type 0 where
  pub unknown_word_name : String
  pub language : String
  pub letter_pos : String

infixl 8 ◌>>=◌
abbrev pub ◌>>=◌ {ℓ κ} : {A : Type ℓ} {B : Type κ} → Option A → (A → Option B) → Option B
none >>= next = none
(some a) >>= next = next a

abbrev pub unit_names : List String
unit_names =
    "zero" ∷ "one" ∷ "two" ∷ "three" ∷ "four" ∷ "five" ∷ "six" ∷ "seven" ∷ "eight" ∷ "nine" ∷ "ten"
    ∷ "eleven" ∷ "twelve" ∷ "thirteen" ∷ "fourteen" ∷ "fifteen" ∷ "sixteen" ∷ "seventeen"
    ∷ "eighteen" ∷ "nineteen" ∷ []

-- From two tens on.
abbrev pub ten_names : List String
ten_names = "twenty" ∷ "thirty" ∷ "forty" ∷ "fifty" ∷ "sixty" ∷ "seventy" ∷ "eighty" ∷ "ninety" ∷ []

-- Which of the branches a number takes.
pub data Size : Type 0 where
  units tens hundreds thousands millions : Size

abbrev pub size_of : ℕ → Size
size_of n =
    if ltb n 20
    then units
    else if ltb n 100
    then tens
    else if ltb n 1000
    then hundreds
    else if ltb n 1000000
    then thousands
    else millions

module _ (st : Settings) where
  abbrev pub name_in : List String → ℕ → String
  name_in names i = elim (get_elem? names i) [ none ↦ st.unknown_word_name | some w ↦ w ]

  -- Nothing for 0, and otherwise the words `between` and those of the rest.
  abbrev pub unless_zero : ℕ → List String → Option (List String) → Option (List String)
  unless_zero n between rest = if n == 0 then some [] else do r ← rest; some (between ++ r)

  -- The words of `front`, a word, and the words of `back`.
  abbrev pub joined : Option (List String) → String → Option (List String) → Option (List String)
  joined front word back = do f ← front; b ← back; some (f ++ word ∷ b)

  -- `num_2_words` of a number that is not negative; the fuel bounds the depth of the calls.
  unfoldable pub words_for : ℕ → ℕ → Option (List String)
  words_for zero n = none
  words_for (suc fuel) n = elim (size_of n) [
    | units ↦ some (name_in unit_names n ∷ [])
    | tens ↦ (do
      rest ← unless_zero (n % 10) [] (words_for fuel (n % 10))
      some (name_in ten_names (n / 10 - 2) ∷ rest))
    | hundreds ↦ joined (words_for fuel (n / 100)) "hundred" (
        unless_zero (n % 100) (if str_eq st.language "americanenglish" then [] else "and" ∷ [])
          (words_for fuel (n % 100)))
    | thousands ↦ joined (words_for fuel (n / 1000)) "thousand" (
        unless_zero (n % 1000) (if n % 1000 / 100 == 0 then "and" ∷ [] else [])
          (words_for fuel (n % 1000)))
    | millions ↦
        joined (words_for fuel (n / 1000000)) "million"
          (unless_zero (n % 1000000) [] (words_for fuel (n % 1000000)))
  ]

  -- With a depth of calls that is enough for the integers of 32 bits. The least one is its own `-iword`:
  -- the call for it does not return.
  unfoldable pub num_2_words : ℤ → Option (List String)
  unfolding words_for
  num_2_words (pos n) = words_for 5 n
  num_2_words (negsuc n) =
      if ltb n (2 ^ 31 - 1) then (do words ← words_for 5 (suc n); some ("minus" ∷ words)) else none
