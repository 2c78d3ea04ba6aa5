-- ===== src/Tokens/Spoken.antt =====
-- Reading back the words that `num_2_words` of token.cc gives.
use speech_synthesis_system.Base.{
  ℤ, pos, negsuc, ℕ, zero, suc, ◌+◌, ◌*◌, ◌/◌, ◌%◌, ◌-◌, true, ◌^◌, ◌≤◌, ◌<◌, String, ◌≡◌, refl, ap,
  sym, ◌∙◌, inl, inr, Option, none, some, List, [], ◌∷◌, ◌++◌, append_assoc, append-nil, str_eq,
  eq_iff, ltb, ◌==◌, if◌then◌else◌, arith, Bool-cases,
}
use speech_synthesis_system.Tokens.Words.{
  Settings, thousands, millions, size_of, unless_zero, words_for, num_2_words, ◌>>=◌,
}
use speech_synthesis_system.Tokens.Reading.{read_words}
use speech_synthesis_system.Tokens.Thousands.{AddsAt, part_at, nothing_or_and, thousand_add}

abbrev pub magnitude : ℤ → ℕ
magnitude (pos n) = n
magnitude (negsuc n) = suc n

abbrev of_minus : ℕ → ℤ
of_minus zero = pos zero
of_minus (suc n) = negsuc n

-- The integer that a list of words stands for: `minus` in front makes it negative, and no word is 0.
abbrev pub read_integer : List String → Option ℤ
read_integer [] = some (pos 0)
read_integer (w ∷ ws) =
    if str_eq w "minus"
    then (do n ← read_words ws 0 0; some (of_minus n))
    else (do n ← read_words (w ∷ ws) 0 0; some (pos n))

read_words-minus : (ws : List String) → read_words ("minus" ∷ ws) 0 0 ≡ none
unfolding read_words
read_words-minus ws = refl

read_integer-pos :
    (ws : List String) (n : ℕ) → read_words ws 0 0 ≡ some n → read_integer ws ≡ some (pos n)
unfolding read_words
read_integer-pos [] n h = ground (arith, h)
read_integer-pos (w ∷ ws) n h = elim (Bool-cases (str_eq w "minus")) [
  | inl e ↦
      let same : w ≡ "minus" = (eq_iff w "minus").0 e in
      absurd (ground (arith, read_words-minus ws, ap (λ v. read_words (v ∷ ws) 0 0) same, h))
  | inr e ↦ rw (e, h) refl
]

module _ (st : Settings) where
  -- The number has words, and from nothing they lead to two parts that add up to the number.
  abbrev Splits : ℕ → ℕ → Type 0
  Splits fuel n =
      (ws : List String) × (upper : ℕ) × (lower : ℕ) × (words_for st fuel n ≡ some ws)
      × (upper + lower ≡ n)
      × ((rest : List String) (d : ℕ)
          → read_words (ws ++ rest) d 0 ≡ read_words rest (d + upper) lower)

  AddsAt-Splits : (fuel n : ℕ) → AddsAt st fuel n 0 → Splits fuel n
  AddsAt-Splits fuel n (ws, words, adds) = (
    ws,
    0,
    n,
    words,
    omega arith,
    λ rest d.
        adds rest d
        ∙ (ap (λ m. read_words rest d m) (omega arith)
            ∙ ap (λ m. read_words rest m n) (omega arith)),
  )

  read_words-thousand :
      (front back rest : List String) (d m n : ℕ)
      → ((rest : List String) (d : ℕ) → read_words (front ++ rest) d 0 ≡ read_words rest d m)
      → ((rest : List String) (d : ℕ) → read_words (back ++ rest) d 0 ≡ read_words rest d n)
      → read_words ((front ++ "thousand" ∷ back) ++ rest) d 0 ≡ read_words rest (d + m * 1000) n
  unfolding read_words
  read_words-thousand front back rest d m n left right =
      ap (λ l. read_words l d 0) (append_assoc front ("thousand" ∷ back) rest)
      ∙ left ("thousand" ∷ (back ++ rest)) d
      ∙ right rest (d + m * 1000)

  thousands_split : (fuel n : ℕ) → 1000 ≤ n → n < 1000000 → Splits (suc (suc (suc (suc fuel)))) n
  unfolding words_for
  thousands_split fuel n low high =
      let is_thousands : size_of n ≡ thousands = ground (arith, low, high) in
      let between : List String = if n % 1000 / 100 == 0 then "and" ∷ [] else [] in
      let (front, front_words, left) = thousand_add st fuel (n / 1000) (omega arith) in
      let (back, back_words, right) =
        part_at st (suc (suc (suc fuel))) (n % 1000) 0 between
          (λ rest d. nothing_or_and st (n % 1000 / 100 == 0) rest d 0)
          (thousand_add st fuel (n % 1000) (omega arith)) in
      (
        front ++ "thousand" ∷ back,
        n / 1000 * 1000,
        n % 1000,
        rw (is_thousands, words_for, front_words, back_words) refl,
        omega arith,
        λ rest d.
            read_words-thousand front back rest d (0 + n / 1000) (0 + n % 1000) left right
            ∙ (ap (λ m. read_words rest m (0 + n % 1000)) (omega arith)
                ∙ ap (λ m. read_words rest (d + n / 1000 * 1000) m) (omega arith)),
      )

  million_split : (fuel n : ℕ) → n < 1000000 → Splits (suc (suc (suc (suc fuel)))) n
  million_split fuel n h = elim (Bool-cases (ltb n 1000)) [
    | inl e ↦
        AddsAt-Splits (suc (suc (suc (suc fuel)))) n
          (thousand_add st (suc fuel) n (ground (arith, e)))
    | inr e ↦ thousands_split fuel n (ground (arith, e)) h
  ]

  read_words-million :
      (front back rest : List String) (upper lower d c : ℕ)
      → ((rest : List String) (d : ℕ)
          → read_words (front ++ rest) d 0 ≡ read_words rest (d + upper) lower)
      → ((rest : List String) (d' : ℕ)
          → read_words (back ++ rest) d' 0 ≡ read_words rest (d' + d) c)
      → read_words ((front ++ "million" ∷ back) ++ rest) 0 0
        ≡ read_words rest ((0 + upper + lower) * 1000000 + d) c
  unfolding read_words
  read_words-million front back rest upper lower d c left right =
      ap (λ l. read_words l 0 0) (append_assoc front ("million" ∷ back) rest)
      ∙ left ("million" ∷ (back ++ rest)) 0
      ∙ right rest ((0 + upper + lower) * 1000000)

  part_split :
      (fuel n : ℕ)
      → Splits fuel n
      → (ws : List String) × (upper : ℕ) × (lower : ℕ) × (unless_zero st n [] (words_for st fuel n)
          ≡ some ws)
        × (upper + lower ≡ n)
        × ((rest : List String) (d : ℕ)
            → read_words (ws ++ rest) d 0 ≡ read_words rest (d + upper) lower)
  part_split fuel n (ws, upper, lower, words, whole, reads) = elim (Bool-cases (n == 0)) [
    | inl e ↦
        let is_zero : n ≡ 0 = ground (arith, e) in
        (
          [],
          0,
          0,
          rw e refl,
          omega (arith, is_zero),
          λ rest d. ap (λ m. read_words rest m 0) (omega arith),
        )
    | inr e ↦ (ws, upper, lower, rw (e, words) refl, whole, reads)
  ]

  read_words-nil : (d c n : ℕ) → d + c ≡ n → read_words [] d c ≡ some n
  unfolding read_words
  read_words-nil d c n h = ap some h

  -- What is read back of a number: its words give it.
  abbrev pub IsRead : ℕ → ℕ → Type 0
  IsRead fuel n =
      (ws : List String) × (words_for st fuel n ≡ some ws) × (read_words ws 0 0 ≡ some n)

  millions-IsRead : (n : ℕ) → 1000000 ≤ n → n < 1000000000000 → IsRead 5 n
  unfolding words_for
  millions-IsRead n low high =
      let is_millions : size_of n ≡ millions = ground (arith, low, high) in
      let (front, upper, lower, front_words, whole, left) =
        million_split 0 (n / 1000000) (omega arith) in
      let (back, upper', lower', back_words, rest_whole, right) =
        part_split 4 (n % 1000000) (million_split 0 (n % 1000000) (omega arith)) in
      (
        front ++ "million" ∷ back,
        rw (is_millions, words_for, front_words, back_words) refl,
        ap (λ l. read_words l 0 0) (sym (append-nil (front ++ "million" ∷ back)))
            ∙ read_words-million front back [] upper lower upper' lower' left right
            ∙ read_words-nil ((0 + upper + lower) * 1000000 + upper') lower' n
                (omega (arith, whole, rest_whole)),
      )

  pub num-IsRead : (n : ℕ) → n < 1000000000000 → IsRead 5 n
  num-IsRead n h = elim (Bool-cases (ltb n 1000000)) [
    | inl e ↦
        let (ws, upper, lower, words, whole, reads) = million_split 1 n (ground (arith, e)) in
        (
          ws,
          words,
          ap (λ l. read_words l 0 0) (sym (append-nil ws))
              ∙ reads [] 0
              ∙ read_words-nil (0 + upper) lower n (omega (arith, whole)),
        )
    | inr e ↦ millions-IsRead n (ground (arith, e)) h
  ]

  -- Whatever the language and the name of unknown words, `num_2_words` returns for every integer of 32
  -- bits but the least, and reading its words one by one gives the integer.
  pub num_2_words-read_integer :
      (i : ℤ)
      → magnitude i < 2 ^ 31
      → (ws : List String) × (num_2_words st i ≡ some ws) × (read_integer ws ≡ some i)
  unfolding num_2_words
  num_2_words-read_integer (pos n) h =
      let (ws, words, reads) = num-IsRead n (omega (arith, h)) in
      (ws, words, read_integer-pos ws n reads)
  num_2_words-read_integer (negsuc n) h =
      let (ws, words, reads) = num-IsRead (suc n) (omega (arith, h)) in
      let not_least : ltb n (2 ^ 31 - 1) ≡ true = ground (arith, h) in
      ("minus" ∷ ws, rw (not_least, words) refl, rw reads refl)
