-- ===== src/Tokens/Returning.antt =====
-- The results of the functions on numbers in token.cc.
use Prim.Native.String.{len}
use text.Mathlib.Text.{starts_with}
use speech_synthesis_system.Base.{
  ℤ, pos, negsuc, ℕ, suc, ◌/◌, ◌%◌, ◌^◌, ◌<◌, ◌-◌, ◌≡◌, true, inl, inr, Bool-cases, String, refl,
  ap, Option, List, [], ◌∷◌, ◌++◌, map, reverse, ltb, ◌==◌, arith,
}
use speech_synthesis_system.Tokens.Words.{Settings, words_for, num_2_words, ◌>>=◌}
use speech_synthesis_system.Tokens.Calls.{EstCalls, Word, plain}
use speech_synthesis_system.Tokens.Spoken.{magnitude, num-IsRead}
use speech_synthesis_system.Tokens.Spelling.{
  say_num_as_words, say_num_as_year, year_words, say_num_as_ordinal, plain_words, say_as_digits,
  two_numbers, ordinal_word, change_last, number_and, year_of,
}
use speech_synthesis_system.Tokens.Expanding.{appended, point_digits}
use speech_synthesis_system.Tokens.Laws.{EstLaws, Returns, Returns-if}
use speech_synthesis_system.Tokens.Worded.{words_for-cons}

-- `num_2_words` returns for every integer of 32 bits but the least.
pub num_2_words-Returns :
    (st : Settings) (i : ℤ) → magnitude i < 2 ^ 31 → Returns (num_2_words st i)
unfolding num_2_words
num_2_words-Returns st (pos n) h =
    let (ws, words, reads) = num-IsRead st n (omega (arith, h)) in (ws, words)
num_2_words-Returns st (negsuc n) h =
    let (ws, words, reads) = num-IsRead st (suc n) (omega (arith, h)) in
    let not_least : ltb n (2 ^ 31 - 1) ≡ true = ground (arith, h) in
    ("minus" ∷ ws, rw (not_least, words) refl)

module _ (calls : EstCalls) (st : Settings) (laws : EstLaws calls st) where
  pub appended-Returns :
      (front back : Option (List Word)) (between : List Word)
      → Returns front
      → Returns back
      → Returns (appended calls front between back)
  appended-Returns front back between (f, front_is) (b, back_is) =
      (f ++ between ++ b, rw (front_is, back_is) refl)

  pub say_num_as_words-Returns : (num : String) → Returns (say_num_as_words calls st num)
  unfolding say_num_as_words
  say_num_as_words-Returns num = elim (Bool-cases (ltb 9 (len num))) [
    | inl long ↦ rw long (
        Returns-if (starts_with num "-")
          (plain "minus" ∷ say_as_digits calls st (calls.after num "-"), refl)
          (say_as_digits calls st num, refl))
    | inr short ↦
        let small = laws.short num (ground (arith, short)) in
        let (ws, words) = num_2_words-Returns st (calls.atoi num) small in
        rw (short, words) (map plain ws, refl)
  ]

  two_numbers-Returns :
      (a b : ℕ) (between : List String)
      → a < 2 ^ 31
      → b < 2 ^ 31
      → Returns (two_numbers calls st a between b)
  two_numbers-Returns a b between h k =
      let (front, front_words) = num_2_words-Returns st (pos a) h in
      let (back, back_words) = num_2_words-Returns st (pos b) k in
      (map plain (front ++ between ++ back), rw (front_words, back_words) refl)

  number_and-Returns : (a : ℕ) (word : String) → a < 2 ^ 31 → Returns (number_and calls st a word)
  number_and-Returns a word h =
      let (front, front_words) = num_2_words-Returns st (pos a) h in
      (map plain (front ++ word ∷ []), rw front_words refl)

  year_words-Returns : (n : ℕ) → n < 2 ^ 31 → Returns (year_words calls st n)
  unfolding year_words
  year_words-Returns n h =
      Returns-if (ltb (n % 1000) 10)
        (Returns-if (n % 1000 == 0) (number_and-Returns (n / 1000) "thousand" (omega (arith, h))) (
          two_numbers-Returns (n / 1000) (n % 1000) ("thousand" ∷ "and" ∷ []) (omega (arith, h))
            (omega arith)))
        (Returns-if (n % 100 == 0) (number_and-Returns (n / 100) "hundred" (omega (arith, h))) (
          Returns-if (ltb (n % 100) 10)
            (two_numbers-Returns (n / 100) (n % 100) ("o" ∷ []) (omega (arith, h)) (omega arith))
            (two_numbers-Returns (n / 100) (n % 100) [] (omega (arith, h)) (omega arith))))

  pub plain_words-Returns : (o : Option (List String)) → Returns o → Returns (plain_words o)
  plain_words-Returns o (ws, e) = (map plain ws, rw e refl)

  year_of-Returns : (i : ℤ) → magnitude i < 2 ^ 31 → Returns (year_of calls st i)
  year_of-Returns (pos n) h =
      Returns-if (ltb n 100)
        (plain_words-Returns (num_2_words st (pos n)) (num_2_words-Returns st (pos n) h))
        (year_words-Returns n h)
  year_of-Returns (negsuc n) h =
      plain_words-Returns (num_2_words st (negsuc n)) (num_2_words-Returns st (negsuc n) h)

  pub say_num_as_year-Returns : (num : String) → Returns (say_num_as_year calls st num)
  unfolding say_num_as_year
  say_num_as_year-Returns num = elim (Bool-cases (ltb 4 (len num))) [
    | inl long ↦ rw long (say_num_as_words-Returns num)
    | inr short ↦
        let small = laws.short num (ground (arith, short)) in
        let (ws, words) = num_2_words-Returns st (calls.atoi num) small in
        rw short (
          Returns-if (calls.matches num "00") (plain "o" ∷ plain "o" ∷ [], refl)
            (Returns-if (calls.matches num "0[0-9]") (plain "o" ∷ map plain ws, rw words refl)
              (year_of-Returns (calls.atoi num) small)))
  ]

  change_last-Returns :
      (f : String → String) (w : String) (ws : List String) → Returns (change_last f (w ∷ ws))
  change_last-Returns f w [] = (f w ∷ [], refl)
  change_last-Returns f w (v ∷ ws) =
      let (rest, e) = change_last-Returns f v ws in (w ∷ rest, rw e refl)

  pub point_digits-Returns :
      (cs : List String) (ap : List Word) → Returns (point_digits calls st cs ap)
  unfolding point_digits
  point_digits-Returns [] ap = (reverse ap, refl)
  point_digits-Returns (c ∷ cs) ap =
      let (words, e) = say_num_as_words-Returns c in
      let (result, f) = point_digits-Returns cs (words ++ ap) in (result, rw (e, f) refl)

  ordinal_of_number :
      (fuel n : ℕ) (f : String → String)
      → Returns (words_for st fuel n)
      → Returns (do words ← words_for st fuel n; change_last f words)
  ordinal_of_number fuel n f (ws, words) =
      let (w, rest, same) = words_for-cons st fuel n ws words in
      let (result, e) = change_last-Returns f w rest in (result, rw (words, same) e)

  ordinal_of_integer :
      (i : ℤ) (f : String → String)
      → magnitude i < 2 ^ 31
      → Returns (do words ← num_2_words st i; change_last f words)
  unfolding num_2_words
  ordinal_of_integer (pos n) f h = ordinal_of_number 5 n f (num_2_words-Returns st (pos n) h)
  ordinal_of_integer (negsuc n) f h =
      let (ws, words, reads) = num-IsRead st (suc n) (omega (arith, h)) in
      let not_least : ltb n (2 ^ 31 - 1) ≡ true = ground (arith, h) in
      let (result, e) = change_last-Returns f "minus" ws in (result, rw (not_least, words) e)

  pub say_num_as_ordinal-Returns :
      (num : String)
      → magnitude (calls.atoi num) < 2 ^ 31
      → Returns (say_num_as_ordinal calls st num)
  unfolding say_num_as_ordinal
  say_num_as_ordinal-Returns num h = ordinal_of_integer (calls.atoi num) (ordinal_word calls st) h
