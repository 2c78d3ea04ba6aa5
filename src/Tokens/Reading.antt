-- ===== src/Tokens/Reading.antt =====
-- What a number in words stands for, read word by word.
use speech_synthesis_system.Base.{
  ℕ, zero, suc, ◌+◌, ◌*◌, ◌<◌, String, ◌≡◌, refl, ap, Bool, true, false, ◌&&◌, Option, none, some,
  List, [], ◌∷◌, str_eq, ◌==◌, if◌then◌else◌, arith, Bool-cases, inl, inr,
}
use speech_synthesis_system.Tokens.Words.{Settings, unit_names, ten_names, name_in}

-- What one word does to a number that is read: it adds a value, or multiplies what was added.
pub data Meaning : Type 0 where
  value : ℕ → Meaning
  hundred thousand million nothing no_number : Meaning

-- The number words of English below a hundred, each with its number.
abbrev pub numbers : List (String × ℕ)
numbers =
    ("zero", 0)
    ∷ ("one", 1)
    ∷ ("two", 2)
    ∷ ("three", 3)
    ∷ ("four", 4)
    ∷ ("five", 5)
    ∷ ("six", 6)
    ∷ ("seven", 7)
    ∷ ("eight", 8)
    ∷ ("nine", 9)
    ∷ ("ten", 10)
    ∷ ("eleven", 11)
    ∷ ("twelve", 12)
    ∷ ("thirteen", 13)
    ∷ ("fourteen", 14)
    ∷ ("fifteen", 15)
    ∷ ("sixteen", 16)
    ∷ ("seventeen", 17)
    ∷ ("eighteen", 18)
    ∷ ("nineteen", 19)
    ∷ ("twenty", 20)
    ∷ ("thirty", 30)
    ∷ ("forty", 40)
    ∷ ("fifty", 50)
    ∷ ("sixty", 60)
    ∷ ("seventy", 70)
    ∷ ("eighty", 80)
    ∷ ("ninety", 90)
    ∷ []

abbrev pub number_of : String → List (String × ℕ) → Option ℕ
number_of w [] = none
number_of w ((name, v) ∷ rest) = if str_eq w name then some v else number_of w rest

abbrev pub big_word : String → Meaning
big_word w =
    if str_eq w "hundred"
    then hundred
    else if str_eq w "thousand"
    then thousand
    else if str_eq w "million"
    then million
    else if str_eq w "and"
    then nothing
    else no_number

-- The meaning of a word from its number among those below a hundred.
abbrev pub meaning_at : Option ℕ → String → Meaning
meaning_at (some v) w = value v
meaning_at none w = big_word w

abbrev pub meaning : String → Meaning
meaning w = meaning_at (number_of w numbers) w

-- `done` is what stands before the last thousand or million, `current` what has been added since.
abbrev pub step : Meaning → ℕ → ℕ → Option (ℕ × ℕ)
step (value v) done current = some (done, current + v)
step hundred done current = some (done, current * 100)
step thousand done current = some (done + current * 1000, 0)
step million done current = some ((done + current) * 1000000, 0)
step nothing done current = some (done, current)
step no_number done current = none

unfoldable pub read_words : List String → ℕ → ℕ → Option ℕ
read_words [] done current = some (done + current)
read_words (w ∷ ws) done current = elim (step (meaning w) done current) [
  | none ↦ none
  | some (d, c) ↦ read_words ws d c
]

abbrev all_below : ℕ → (ℕ → Bool) → Bool
all_below zero test = true
all_below (suc n) test = test n && all_below n test

all_below-lt : (n i : ℕ) (test : ℕ → Bool) → all_below n test ≡ true → i < n → test i ≡ true
all_below-lt zero i test all h = absurd (omega arith)
all_below-lt (suc n) i test all h =
    let both : (test n ≡ true) × (all_below n test ≡ true) =
      (ground (arith, all), ground (arith, all)) in
    elim (Bool-cases (i == n)) [
      | inl e ↦ let same : i ≡ n = ground (arith, e) in rw same both.0
      | inr e ↦ all_below-lt n i test both.1 (ground (arith, e, h))
    ]

abbrev is_value : Meaning → ℕ → Bool
is_value (value v) n = v == n
is_value other n = false

is_value-true : (m : Meaning) (n : ℕ) → is_value m n ≡ true → m ≡ value n
is_value-true (value v) n h = ap value (ground (arith, h))
is_value-true hundred n h = cc
is_value-true thousand n h = cc
is_value-true million n h = cc
is_value-true nothing n h = cc
is_value-true no_number n h = cc

pub meaning_unit : (st : Settings) (n : ℕ) → n < 20 → meaning (name_in st unit_names n) ≡ value n
meaning_unit st n h =
    is_value-true (meaning (name_in st unit_names n)) n
      (all_below-lt 20 n (λ i. is_value (meaning (name_in st unit_names i)) i) refl h)

pub meaning_ten :
    (st : Settings) (n : ℕ) → n < 8 → meaning (name_in st ten_names n) ≡ value (10 * (n + 2))
meaning_ten st n h =
    is_value-true (meaning (name_in st ten_names n)) (10 * (n + 2))
      (all_below-lt 8 n (λ i. is_value (meaning (name_in st ten_names i)) (10 * (i + 2))) refl h)
