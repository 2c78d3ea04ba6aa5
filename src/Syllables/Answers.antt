-- ===== src/Syllables/Answers.antt =====
-- `lex_syllabify` of lex_aux.cc returns for phones of the current set.
use speech_synthesis_system.Base.{
  ℕ, String, ◌≡◌, refl, subst, Bool, true, false, not, some, Outcome, ok, ◌>>=◌, List, [], ◌∷◌,
  reverse, if◌then◌else◌, All,
}
use speech_synthesis_system.Phones.Set.{Symbols, Phone, PhoneSet, PhoneError, member}
use speech_synthesis_system.Phones.State.{PhoneSets, current_phoneset, or_not_a_member}
use speech_synthesis_system.Phones.Classes.{
  ph_has, ph_feat, ph_is_vowel, ph_is_silence, ph_sonority,
}
use speech_synthesis_system.Syllables.Marks.{starts_as_vowel}
use speech_synthesis_system.Syllables.Split.{
  Syllable, syl_contains_vowel, sonority_rises, breakable_before, syl_breakable, syllabify_loop,
  lex_syllabify,
}
use speech_synthesis_system.Syllables.Phones.{
  IsClosed, IsSyllabified, Gives, syllabify_loop-IsSyllabified,
}

-- A phone of the set.
abbrev pub IsKnown : PhoneSet → String → Type 0
IsKnown ps ph = (p : Phone) × (member ps ph ≡ some p)

abbrev pub IsOk : {A : Type 0} → Outcome PhoneError A → Type 0
IsOk {A} o = (a : A) × (o ≡ ok a)

IsOk-bind :
    {A B : Type 0} (o : Outcome PhoneError A) (k : A → Outcome PhoneError B)
    → IsOk o
    → ((a : A) → IsOk (k a))
    → IsOk (o >>= k)
IsOk-bind o k (a, e) h = rw e (h a)

IsOk-if :
    {A : Type 0} (b : Bool) (o o' : Outcome PhoneError A)
    → IsOk o
    → IsOk o'
    → IsOk (if b then o else o')
IsOk-if true o o' h h' = h
IsOk-if false o o' h h' = h'

module _ (s : PhoneSets) (ps : PhoneSet) (h : current_phoneset s ≡ ok ps) where
  ph_is_vowel-IsOk : (ph : String) → IsKnown ps ph → IsOk (ph_is_vowel ph s)
  unfolding ph_has ph_feat or_not_a_member
  ph_is_vowel-IsOk ph (p, m) = rw (h, m) (_, refl)

  ph_is_silence-IsOk : (ph : String) → IsOk (ph_is_silence ph s)
  unfolding ph_is_silence
  ph_is_silence-IsOk ph = rw h (_, refl)

  ph_sonority-IsOk : (ph : String) → IsOk (ph_sonority ph s)
  unfolding ph_sonority
  ph_sonority-IsOk ph = rw h (_, refl)

  syl_contains_vowel-IsOk : (l : Symbols) → All (IsKnown ps) l → IsOk (syl_contains_vowel s l)
  unfolding syl_contains_vowel
  syl_contains_vowel-IsOk [] k = (false, refl)
  syl_contains_vowel-IsOk (p ∷ l) k =
      IsOk-if (starts_as_vowel p) _ _ (true, refl)
        (IsOk-bind (ph_is_vowel p s) _ (ph_is_vowel-IsOk p k.0) λ v.
          IsOk-if v _ _ (true, refl)
            (IsOk-bind (ph_is_silence p s) _ (ph_is_silence-IsOk p)
              λ q. IsOk-if q _ _ (false, refl) (syl_contains_vowel-IsOk l k.1)))

  sonority_rises-IsOk :
      (syl : Symbols) (next second : String) → IsOk (sonority_rises s syl next second)
  unfolding sonority_rises
  sonority_rises-IsOk [] next second = (false, refl)
  sonority_rises-IsOk (last ∷ syl) next second =
      IsOk-bind (ph_sonority last s) _ (ph_sonority-IsOk last) λ p.
        IsOk-bind (ph_sonority next s) _ (ph_sonority-IsOk next)
          λ n. IsOk-bind (ph_sonority second s) _ (ph_sonority-IsOk second) λ nn. (_, refl)

  breakable_before-IsOk :
      (syl : Symbols) (next : String) (later : Symbols)
      → IsKnown ps next
      → IsOk (breakable_before s syl next later)
  unfolding breakable_before
  breakable_before-IsOk syl next [] k =
      IsOk-bind (ph_is_vowel next s) _ (ph_is_vowel-IsOk next k)
        λ v. IsOk-if v _ _ (true, refl) (false, refl)
  breakable_before-IsOk syl next (second ∷ more) k =
      IsOk-bind (ph_is_vowel next s) _ (ph_is_vowel-IsOk next k)
        λ v. IsOk-if v _ _ (true, refl) (sonority_rises-IsOk syl next second)

  syl_breakable-IsOk :
      (syl p : Symbols) → All (IsKnown ps) syl → All (IsKnown ps) p → IsOk (syl_breakable s syl p)
  unfolding syl_breakable
  syl_breakable-IsOk syl [] k k' = (true, refl)
  syl_breakable-IsOk syl (next ∷ later) k k' =
      IsOk-bind (syl_contains_vowel s (next ∷ later)) _ (syl_contains_vowel-IsOk (next ∷ later) k')
        λ remaining.
          IsOk-if (not remaining) _ _ (false, refl)
            (IsOk-bind (syl_contains_vowel s syl) _ (syl_contains_vowel-IsOk syl k)
              λ has. IsOk-if has _ _ (breakable_before-IsOk syl next later k'.0) (false, refl))

  syllabify_loop-IsOk :
      (p syl : Symbols) (syls : List Syllable) (stress : ℕ)
      → All (IsKnown ps) syl
      → All (IsKnown ps) p
      → IsOk (syllabify_loop s p syl syls stress)
  unfolding syllabify_loop
  syllabify_loop-IsOk [] syl syls stress k k' = (reverse syls, refl)
  syllabify_loop-IsOk (x ∷ p) syl syls stress k k' =
      IsOk-bind (syl_breakable s (x ∷ syl) p) _ (syl_breakable-IsOk (x ∷ syl) p (k'.0, k) k'.1) λ b.
        IsOk-if b _ _ (syllabify_loop-IsOk p [] _ 0 tt k'.1)
          (syllabify_loop-IsOk p (x ∷ syl) syls stress (k'.0, k) k'.1)

IsClosed-start : (phones : Symbols) → IsClosed phones []
IsClosed-start [] = refl
IsClosed-start (x ∷ phones) = tt

-- For phones of the current set, `lex_syllabify` returns; the syllables hold the phones in order, each
-- syllable at least one, and the first syllable is stressed and no other.
pub lex_syllabify-IsSyllabified :
    (s : PhoneSets) (ps : PhoneSet) (phones : Symbols)
    → current_phoneset s ≡ ok ps
    → All (IsKnown ps) phones
    → (syls : List Syllable) × (lex_syllabify s phones ≡ ok syls) × IsSyllabified phones syls
unfolding lex_syllabify
lex_syllabify-IsSyllabified s ps phones h k =
    let (syls, e) = syllabify_loop-IsOk s ps h phones [] [] 1 tt k in
    (
      syls,
      e,
      subst (Gives (IsSyllabified phones)) e (
          syllabify_loop-IsSyllabified s phones [] [] [] 1 (IsClosed-start phones)
            (record { in_order = refl; inhabited = tt; stressed = tt }) refl),
    )
