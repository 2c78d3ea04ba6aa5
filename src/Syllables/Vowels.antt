-- ===== src/Syllables/Vowels.antt =====
-- `lex_syllabify` of lex_aux.cc leaves no syllable of a word that has a vowel without one.
use speech_synthesis_system.Base.{
  ℕ, String, ◌≡◌, ◌⊎◌, refl, ap, subst, ◌∙◌, Bool, true, Outcome, ok, err, ◌>>=◌, List, [], ◌∷◌,
  ◌++◌, reverse, reverse-cons, Bool-cases, inl, inr, All, All-append,
}
use speech_synthesis_system.Phones.Set.{Symbols, PhoneSet, PhoneError}
use speech_synthesis_system.Phones.State.{PhoneSets, current_phoneset}
use speech_synthesis_system.Phones.Classes.{ph_is_vowel, ph_is_silence}
use speech_synthesis_system.Syllables.Marks.{starts_as_vowel}
use speech_synthesis_system.Syllables.Split.{
  Syllable, syl_contains_vowel, syl_breakable, syllabify_loop, lex_syllabify,
}
use speech_synthesis_system.Syllables.Phones.{Gives, Gives-bind, ended}
use speech_synthesis_system.Syllables.Answers.{IsKnown, lex_syllabify-IsSyllabified}

-- A vowel of the current set, or any phone whose name begins with a letter of `aiueoAIUEO`, consonants such
-- as `en` among them.
abbrev pub IsVocal : PhoneSets → String → Type 0
IsVocal s ph = (starts_as_vowel ph ≡ true) ⊎ (ph_is_vowel ph s ≡ ok true)

-- One of the phones is what `syl_contains_vowel` takes for a vowel.
abbrev pub HasVowel : PhoneSets → Symbols → Type 0
HasVowel s [] = ⊥
HasVowel s (ph ∷ phones) = IsVocal s ph ⊎ HasVowel s phones

-- A step of a chain of questions that ends in `true`.
ok_true-bind :
    {A : Type 0} (o : Outcome PhoneError A) (k : A → Outcome PhoneError Bool)
    → (o >>= k) ≡ ok true
    → (a : A) × (o ≡ ok a) × (k a ≡ ok true)
ok_true-bind (ok a) k h = (a, refl, h)
ok_true-bind (err e) k h = absurd (cc)

HasVowel-syl_contains_vowel :
    (s : PhoneSets) (l : Symbols) → syl_contains_vowel s l ≡ ok true → HasVowel s l
unfolding syl_contains_vowel
HasVowel-syl_contains_vowel s [] h = absurd (cc)
HasVowel-syl_contains_vowel s (p ∷ l) h = elim (Bool-cases (starts_as_vowel p)) [
  | inl e ↦ inl (inl e)
  | inr e ↦
      let (v, asked, more) = ok_true-bind (ph_is_vowel p s) _ (rw e at h) in
      elim (Bool-cases v) [
        | inl yes_vowel ↦ inl (inr (asked ∙ ap ok yes_vowel))
        | inr not_vowel ↦
            let (q, answer, later) = ok_true-bind (ph_is_silence p s) _ (rw not_vowel at more) in
            elim (Bool-cases q) [
              | inl at_silence ↦ absurd (cc (rw at_silence at later))
              | inr onward ↦ inr (HasVowel-syl_contains_vowel s l (rw onward at later))
            ]
      ]
]

HasVowel-append_left : (s : PhoneSets) (xs ys : Symbols) → HasVowel s xs → HasVowel s (xs ++ ys)
HasVowel-append_left s [] ys h = absurd h
HasVowel-append_left s (x ∷ xs) ys (inl h) = inl h
HasVowel-append_left s (x ∷ xs) ys (inr h) = inr (HasVowel-append_left s xs ys h)

HasVowel-append_right : (s : PhoneSets) (xs ys : Symbols) → HasVowel s ys → HasVowel s (xs ++ ys)
HasVowel-append_right s [] ys h = h
HasVowel-append_right s (x ∷ xs) ys h = inr (HasVowel-append_right s xs ys h)

HasVowel-last :
    (s : PhoneSets) (x : String) (l front : Symbols)
    → (HasVowel s l → HasVowel s front)
    → HasVowel s (x ∷ l)
    → HasVowel s (front ++ x ∷ [])
HasVowel-last s x l front earlier (inl v) = HasVowel-append_right s front (x ∷ []) (inl v)
HasVowel-last s x l front earlier (inr v) = HasVowel-append_left s front (x ∷ []) (earlier v)

HasVowel-reverse : (s : PhoneSets) (l : Symbols) → HasVowel s l → HasVowel s (reverse l)
HasVowel-reverse s [] h = h
HasVowel-reverse s (x ∷ l) h =
    rw (reverse-cons x l) (HasVowel-last s x l (reverse l) (HasVowel-reverse s l) h)

-- There is a vowel for the syllable that is being collected.
abbrev IsPending : PhoneSets → Symbols → Symbols → Type 0
IsPending s [] syl = Unit
IsPending s (x ∷ p) syl = HasVowel s syl ⊎ HasVowel s (x ∷ p)

syl_breakable-HasVowel :
    (s : PhoneSets) (syl : Symbols) (y : String) (p : Symbols)
    → syl_breakable s syl (y ∷ p) ≡ ok true
    → HasVowel s syl × HasVowel s (y ∷ p)
unfolding syl_breakable
syl_breakable-HasVowel s syl y p h =
    let (remaining, asked, more) = ok_true-bind (syl_contains_vowel s (y ∷ p)) _ h in
    elim (Bool-cases remaining) [
      | inr none_left ↦ absurd (cc (rw none_left at more))
      | inl left ↦
          let (has, answer, later) = ok_true-bind (syl_contains_vowel s syl) _ (rw left at more) in
          elim (Bool-cases has) [
            | inr without ↦ absurd (cc (rw without at later))
            | inl within ↦ (
              HasVowel-syl_contains_vowel s syl (answer ∙ ap ok within),
              HasVowel-syl_contains_vowel s (y ∷ p) (asked ∙ ap ok left),
            )
          ]
    ]

-- What a broken syllable and the phones behind it have.
break_vowels :
    (s : PhoneSets) (x : String) (syl p : Symbols)
    → syl_breakable s (x ∷ syl) p ≡ ok true
    → HasVowel s syl ⊎ HasVowel s (x ∷ p)
    → HasVowel s (x ∷ syl) × IsPending s p []
break_vowels s x syl [] h (inl v) = (inr v, tt)
break_vowels s x syl [] h (inr (inl v)) = (inl v, tt)
break_vowels s x syl [] h (inr (inr v)) = absurd v
break_vowels s x syl (y ∷ p) h v =
    let (first, second) = syl_breakable-HasVowel s (x ∷ syl) y p h in (first, inr second)

IsPending-more :
    (s : PhoneSets) (x : String) (syl p : Symbols)
    → HasVowel s syl ⊎ HasVowel s (x ∷ p)
    → IsPending s p (x ∷ syl)
IsPending-more s x syl [] v = tt
IsPending-more s x syl (y ∷ p) (inl v) = inl (inr v)
IsPending-more s x syl (y ∷ p) (inr (inl v)) = inl (inl v)
IsPending-more s x syl (y ∷ p) (inr (inr v)) = inr v

abbrev AllHaveVowels : PhoneSets → List Syllable → Type 0
AllHaveVowels s syls = All (λ (syl : Syllable). HasVowel s syl.phones) syls

syllabify_loop-AllHaveVowels :
    (s : PhoneSets) (p syl : Symbols) (syls : List Syllable) (stress : ℕ)
    → IsPending s p syl
    → AllHaveVowels s (reverse syls)
    → Gives (AllHaveVowels s) (syllabify_loop s p syl syls stress)
unfolding syllabify_loop
syllabify_loop-AllHaveVowels s [] syl syls stress v a = a
syllabify_loop-AllHaveVowels s (x ∷ p) syl syls stress v a =
    Gives-bind _ (syl_breakable s (x ∷ syl) p) _ λ b h. elim (Bool-cases b) [
      | inl e ↦ rw e (
          let (first, second) = break_vowels s x syl p (h ∙ ap ok e) v in
          syllabify_loop-AllHaveVowels s p [] _ 0 second (
            rw (reverse-cons (ended x syl stress) syls) (
              All-append _ (reverse syls) (ended x syl stress ∷ []) a
                (HasVowel-reverse s (x ∷ syl) first, tt))))
      | inr e ↦
          rw e
            (syllabify_loop-AllHaveVowels s p (x ∷ syl) syls stress (IsPending-more s x syl p v) a)
    ]

IsPending-start : (s : PhoneSets) (phones : Symbols) → HasVowel s phones → IsPending s phones []
IsPending-start s [] v = tt
IsPending-start s (x ∷ phones) v = inr v

-- For phones of the current set of which one counts as a vowel, `lex_syllabify` returns, and in every
-- syllable one does. What counts is what `syl_contains_vowel` counts: a vowel of the set, or any phone, a
-- consonant too, whose name begins with a letter of `aiueoAIUEO`.
pub lex_syllabify-HasVowel :
    (s : PhoneSets) (ps : PhoneSet) (phones : Symbols)
    → current_phoneset s ≡ ok ps
    → All (IsKnown ps) phones
    → HasVowel s phones
    → (syls : List Syllable) × (lex_syllabify s phones ≡ ok syls)
      × All (λ (syl : Syllable). HasVowel s syl.phones) syls
unfolding lex_syllabify
lex_syllabify-HasVowel s ps phones h k v =
    let (syls, e, whole) = lex_syllabify-IsSyllabified s ps phones h k in
    (
      syls,
      e,
      subst (Gives (AllHaveVowels s)) e
          (syllabify_loop-AllHaveVowels s phones [] [] 1 (IsPending-start s phones v) tt),
    )
