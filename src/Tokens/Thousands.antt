-- ===== src/Tokens/Thousands.antt =====
-- Reading back the words of a number below a thousand.
use speech_synthesis_system.Base.{
  ℕ, suc, ◌+◌, ◌-◌, ◌*◌, ◌/◌, ◌%◌, ◌≤◌, ◌<◌, String, ◌≡◌, refl, ap, ◌∙◌, inl, inr, Bool, true,
  false, some, List, [], ◌∷◌, ◌++◌, append_assoc, str_eq, ltb, ◌==◌, if◌then◌else◌, arith,
  Bool-cases,
}
use speech_synthesis_system.Tokens.Words.{
  Settings, unit_names, ten_names, units, tens, hundreds, size_of, name_in, unless_zero, words_for,
}
use speech_synthesis_system.Tokens.Reading.{value, meaning, read_words, meaning_unit, meaning_ten}

read_words-value :
    (w : String) (v : ℕ) (rest : List String) (d c : ℕ)
    → meaning w ≡ value v
    → read_words (w ∷ rest) d c ≡ read_words rest d (c + v)
unfolding read_words
read_words-value w v rest d c h = rw (h, read_words) refl

module _ (st : Settings) where
  -- The number has words, and where `c` has been added before them, they add the number.
  abbrev pub AddsAt : ℕ → ℕ → ℕ → Type 0
  AddsAt fuel n c =
      (ws : List String) × (words_for st fuel n ≡ some ws)
      × ((rest : List String) (d : ℕ) → read_words (ws ++ rest) d c ≡ read_words rest d (c + n))

  units_add : (fuel n c : ℕ) → n < 20 → AddsAt (suc fuel) n c
  unfolding words_for
  units_add fuel n c h =
      let is_units : size_of n ≡ units = ground (arith, h) in
      (
        name_in st unit_names n ∷ [],
        rw (is_units, words_for) refl,
        λ rest d. read_words-value (name_in st unit_names n) n rest d c (meaning_unit st n h),
      )

  -- What follows a part of the number: nothing for 0, else some words that change nothing and the number's.
  abbrev pub PartAt : ℕ → List String → ℕ → ℕ → Type 0
  PartAt fuel between n c =
      (ws : List String) × (unless_zero st n between (words_for st fuel n) ≡ some ws)
      × ((rest : List String) (d : ℕ) → read_words (ws ++ rest) d c ≡ read_words rest d (c + n))

  pub part_at :
      (fuel n c : ℕ) (between : List String)
      → ((rest : List String) (d : ℕ) → read_words (between ++ rest) d c ≡ read_words rest d c)
      → AddsAt fuel n c
      → PartAt fuel between n c
  part_at fuel n c between passes (ws, words, adds) = elim (Bool-cases (n == 0)) [
    | inl e ↦
        let is_zero : n ≡ 0 = ground (arith, e) in
        ([], rw e refl, λ rest d. ap (λ m. read_words rest d m) (omega (arith, is_zero)))
    | inr e ↦ (
      between ++ ws,
      rw (e, words) refl,
      λ rest d.
          ap (λ l. read_words l d c) (append_assoc between ws rest)
          ∙ passes (ws ++ rest) d
          ∙ adds rest d,
    )
  ]

  tens_add : (fuel n c : ℕ) → 20 ≤ n → n < 100 → AddsAt (suc (suc fuel)) n c
  unfolding words_for
  tens_add fuel n c low high =
      let is_tens : size_of n ≡ tens = ground (arith, low, high) in
      let name = name_in st ten_names (n / 10 - 2) in
      let ten = 10 * (n / 10 - 2 + 2) in
      let (ws, words, adds) =
        part_at (suc fuel) (n % 10) (c + ten) [] (λ rest d. refl)
          (units_add fuel (n % 10) (c + ten) (omega arith)) in
      (
        name ∷ ws,
        rw (is_tens, words_for, words) refl,
        λ rest d.
            read_words-value name ten (ws ++ rest) d c (meaning_ten st (n / 10 - 2) (omega arith))
            ∙ adds rest d
            ∙ ap (λ m. read_words rest d m) (omega arith),
      )

  hundred_add : (fuel n c : ℕ) → n < 100 → AddsAt (suc (suc fuel)) n c
  hundred_add fuel n c h = elim (Bool-cases (ltb n 20)) [
    | inl e ↦ units_add (suc fuel) n c (ground (arith, e))
    | inr e ↦ tens_add fuel n c (ground (arith, e)) h
  ]

  -- The word `and` changes nothing.
  abbrev Passes : List String → Type 0
  Passes between =
      (rest : List String) (d c : ℕ) → read_words (between ++ rest) d c ≡ read_words rest d c

  and-Passes : Passes ("and" ∷ [])
  unfolding read_words
  and-Passes rest d c = refl

  and_or_nothing : (b : Bool) → Passes (if b then [] else "and" ∷ [])
  and_or_nothing true rest d c = refl
  and_or_nothing false rest d c = and-Passes rest d c

  pub nothing_or_and : (b : Bool) → Passes (if b then "and" ∷ [] else [])
  nothing_or_and true rest d c = and-Passes rest d c
  nothing_or_and false rest d c = refl

  read_words-hundred :
      (front back rest : List String) (d c : ℕ) (m n : ℕ)
      → ((rest : List String) (d : ℕ) → read_words (front ++ rest) d c ≡ read_words rest d m)
      → ((rest : List String) (d : ℕ) → read_words (back ++ rest) d (m * 100) ≡ read_words rest d n)
      → read_words ((front ++ "hundred" ∷ back) ++ rest) d c ≡ read_words rest d n
  unfolding read_words
  read_words-hundred front back rest d c m n left right =
      ap (λ l. read_words l d c) (append_assoc front ("hundred" ∷ back) rest)
      ∙ left ("hundred" ∷ (back ++ rest)) d
      ∙ right rest d

  hundreds_add : (fuel n : ℕ) → 100 ≤ n → n < 1000 → AddsAt (suc (suc (suc fuel))) n 0
  unfolding words_for
  hundreds_add fuel n low high =
      let is_hundreds : size_of n ≡ hundreds = ground (arith, low, high) in
      let between : List String = if str_eq st.language "americanenglish" then [] else "and" ∷ [] in
      let (front, front_words, left) = hundred_add fuel (n / 100) 0 (omega arith) in
      let (back, back_words, right) =
        part_at (suc (suc fuel)) (n % 100) ((0 + n / 100) * 100) between
          (λ rest d.
            and_or_nothing (str_eq st.language "americanenglish") rest d ((0 + n / 100) * 100))
          (hundred_add fuel (n % 100) ((0 + n / 100) * 100) (omega arith)) in
      (
        front ++ "hundred" ∷ back,
        rw (is_hundreds, words_for, front_words, back_words) refl,
        λ rest d.
            read_words-hundred front back rest d 0 (0 + n / 100) ((0 + n / 100) * 100 + n % 100)
              left right
            ∙ ap (λ m. read_words rest d m) (omega arith),
      )

  pub thousand_add : (fuel n : ℕ) → n < 1000 → AddsAt (suc (suc (suc fuel))) n 0
  thousand_add fuel n h = elim (Bool-cases (ltb n 100)) [
    | inl e ↦ hundred_add (suc fuel) n 0 (ground (arith, e))
    | inr e ↦ hundreds_add fuel n (ground (arith, e)) h
  ]
