-- ===== src/Tokens/Ordinals.antt =====
-- Reading back the words that `say_num_as_ordinal` of token.cc gives.
use Prim.Native.String.{◌++◌ as ◌and_text◌, len, slice, find}
use speech_synthesis_system.Base.{
  ℤ, ℕ, ◌-◌, ◌^◌, ◌<◌, String, ◌≡◌, refl, ap, ◌∙◌, ◌≢◌, inl, inr, Bool, true, false, ◌&&◌, Option,
  none, some, List, [], ◌∷◌, All, str_eq, eq_iff, if◌then◌else◌, arith, Bool-cases, Option-cases,
}
use speech_synthesis_system.Tokens.Words.{Settings, num_2_words}
use speech_synthesis_system.Tokens.Calls.{EstCalls}
use speech_synthesis_system.Tokens.Spelling.{
  val_of, ends_with, ordinal_names, change_last, ordinal_from, ordinal_word, say_num_as_ordinal,
}
use speech_synthesis_system.Tokens.Reading.{
  no_number, numbers, number_of, big_word, meaning_at, meaning, step, read_words,
}
use speech_synthesis_system.Tokens.Worded.{num_2_words-some}
use speech_synthesis_system.Tokens.Spoken.{magnitude, read_integer, num_2_words-read_integer}

-- The ordinals of English up to twelve, each with its cardinal.
abbrev pub cardinals : List (String × String)
cardinals =
    ("zeroth", "zero")
    ∷ ("first", "one")
    ∷ ("second", "two")
    ∷ ("third", "three")
    ∷ ("fourth", "four")
    ∷ ("fifth", "five")
    ∷ ("sixth", "six")
    ∷ ("seventh", "seven")
    ∷ ("eighth", "eight")
    ∷ ("ninth", "nine")
    ∷ ("tenth", "ten")
    ∷ ("eleventh", "eleven")
    ∷ ("twelfth", "twelve")
    ∷ []

-- The cardinal of an ordinal.
abbrev pub cardinal_word : String → String
cardinal_word word = elim (val_of word cardinals) [
  | some cardinal ↦ cardinal
  | none ↦
      if ends_with word "tieth"
      then slice word 0 (len word - 5) and_text "ty"
      else slice word 0 (len word - 2)
]

-- The ordinal of a word, with what stands before `ty` cut out of the text.
abbrev ordinal_of : String → String
ordinal_of w = ordinal_from (val_of w ordinal_names) (slice w 0 (find w "ty")) w

abbrev is_read_back : String → Bool
is_read_back w = str_eq (cardinal_word (ordinal_of w)) w

abbrev all_words : (String → Bool) → List (String × ℕ) → Bool
all_words test [] = true
all_words test ((w, v) ∷ l) = test w && all_words test l

all_words-number_of :
    (test : String → Bool) (w : String) (l : List (String × ℕ)) (i : ℕ)
    → all_words test l ≡ true
    → number_of w l ≡ some i
    → test w ≡ true
all_words-number_of test w [] i all h = cc
all_words-number_of test w ((v, n) ∷ l) i all h = elim (Bool-cases (str_eq w v)) [
  | inl e ↦ let same : w ≡ v = (eq_iff w v).0 e in rw same (ground (arith, all))
  | inr e ↦ all_words-number_of test w l i (ground (arith, all)) (rw e at h)
]

numbers_read : all_words is_read_back numbers ≡ true
numbers_read = refl

big_word-read : (w : String) → big_word w ≢ no_number → is_read_back w ≡ true
big_word-read w h = elim (Bool-cases (str_eq w "hundred")) [
  | inl e ↦ let same : w ≡ "hundred" = (eq_iff w "hundred").0 e in rw same refl
  | inr e ↦ elim (Bool-cases (str_eq w "thousand")) [
    | inl f ↦ let same : w ≡ "thousand" = (eq_iff w "thousand").0 f in rw same refl
    | inr f ↦ elim (Bool-cases (str_eq w "million")) [
      | inl g ↦ let same : w ≡ "million" = (eq_iff w "million").0 g in rw same refl
      | inr g ↦ elim (Bool-cases (str_eq w "and")) [
        | inl k ↦ let same : w ≡ "and" = (eq_iff w "and").0 k in rw same refl
        | inr k ↦ absurd (h (rw (e, f, g, k) refl))
      ]
    ]
  ]
]

meaning-read : (w : String) → meaning w ≢ no_number → is_read_back w ≡ true
meaning-read w h = elim (Option-cases (number_of w numbers)) [
  | inr (i, e) ↦ all_words-number_of is_read_back w numbers i numbers_read e
  | inl e ↦ big_word-read w (λ g. h (ap (λ (o : Option ℕ). meaning_at o w) e ∙ g))
]

read_words-All :
    (ws : List String) (d c n : ℕ)
    → read_words ws d c ≡ some n
    → All (λ w. is_read_back w ≡ true) ws
unfolding read_words
read_words-All [] d c n h = tt
read_words-All (w ∷ ws) d c n h = elim (Option-cases (step (meaning w) d c)) [
  | inl e ↦ absurd (ground (arith, e, h))
  | inr ((d', c'), e) ↦ (
    meaning-read w (λ none_is. ground (arith, none_is, e)),
    read_words-All ws d' c' n (rw (e, read_words) at h),
  )
]

ordinal_from-other :
    (o : Option String) (s t w : String)
    → ends_with w "ty" ≡ false
    → ordinal_from o s w ≡ ordinal_from o t w
ordinal_from-other (some ordinal) s t w e = refl
ordinal_from-other none s t w e = elim (Bool-cases (ends_with w "teen")) [
  | inl g ↦ rw g refl
  | inr g ↦ rw (g, e) refl
]

module _ (calls : EstCalls) (st : Settings)
    (before_ty : (s : String)
      → ends_with s "ty" ≡ true
      → calls.before s "ty" ≡ slice s 0 (find s "ty")) where
  ordinal_word-ordinal_of : (w : String) → ordinal_word calls st w ≡ ordinal_of w
  unfolding ordinal_word
  ordinal_word-ordinal_of w = elim (Bool-cases (ends_with w "ty")) [
    | inl e ↦ ap (λ (t : String). ordinal_from (val_of w ordinal_names) t w) (before_ty w e)
    | inr e ↦
        ordinal_from-other (val_of w ordinal_names) (calls.before w "ty") (slice w 0 (find w "ty"))
          w e
  ]

  -- Changing the last of some words and changing it back.
  change_last-back :
      (w : String) (ws : List String)
      → All (λ w. is_read_back w ≡ true) (w ∷ ws)
      → (v : String) × (vs : List String) × (change_last (ordinal_word calls st) (w ∷ ws)
          ≡ some (v ∷ vs))
        × (change_last cardinal_word (v ∷ vs) ≡ some (w ∷ ws))
  change_last-back w [] (good, tt) = (
    ordinal_word calls st w,
    [],
    refl,
    ap (λ (t : String). some (t ∷ []))
        (ap cardinal_word (ordinal_word-ordinal_of w)
          ∙ (eq_iff (cardinal_word (ordinal_of w)) w).0 good),
  )
  change_last-back w (x ∷ ws) (good, rest) =
      let (v, vs, there, back) = change_last-back x ws rest in
      (w, v ∷ vs, rw there refl, rw back refl)

  read_integer-words :
      (ws : List String) (i : ℤ) → read_integer ws ≡ some i → All (λ w. is_read_back w ≡ true) ws
  read_integer-words [] i h = tt
  read_integer-words (w ∷ ws) i h = elim (Bool-cases (str_eq w "minus")) [
    | inl e ↦
        let same : w ≡ "minus" = (eq_iff w "minus").0 e in
        elim (Option-cases (read_words ws 0 0)) [
          | inl f ↦ absurd (ground (arith, e, f, h))
          | inr (n, f) ↦ (rw same refl, read_words-All ws 0 0 n f)
        ]
    | inr e ↦ elim (Option-cases (read_words (w ∷ ws) 0 0)) [
      | inl f ↦ absurd (ground (arith, e, f, h))
      | inr (n, f) ↦ read_words-All (w ∷ ws) 0 0 n f
    ]
  ]

  -- Where `before` cuts at the first `ty`, the text of an integer of 32 bits but the least has its words as
  -- an ordinal: changing the last word back to its cardinal and reading the words gives the integer.
  pub say_num_as_ordinal-read_integer :
      (num : String)
      → magnitude (calls.atoi num) < 2 ^ 31
      → (ordinals : List String) × (words : List String) × (say_num_as_ordinal calls st num
          ≡ some ordinals)
        × (change_last cardinal_word ordinals ≡ some words)
        × (read_integer words ≡ some (calls.atoi num))
  unfolding say_num_as_ordinal
  say_num_as_ordinal-read_integer num h =
      let (ws, words, reads) = num_2_words-read_integer st (calls.atoi num) h in
      let all = read_integer-words ws (calls.atoi num) reads in changed ws all words reads
    where
      changed :
          (ws : List String)
          → All (λ w. is_read_back w ≡ true) ws
          → num_2_words st (calls.atoi num) ≡ some ws
          → read_integer ws ≡ some (calls.atoi num)
          → (ordinals : List String) × (words : List String) × (say_num_as_ordinal calls st num
              ≡ some ordinals)
            × (change_last cardinal_word ordinals ≡ some words)
            × (read_integer words ≡ some (calls.atoi num))
      changed [] all words reads = absurd (num_2_words-some st (calls.atoi num) words)
      changed (w ∷ ws) all words reads =
          let (v, vs, there, back) = change_last-back w ws all in
          (v ∷ vs, w ∷ ws, rw words there, back, reads)
