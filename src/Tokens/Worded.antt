-- ===== src/Tokens/Worded.antt =====
-- The words of `num_2_words` of token.cc: whether there are any.
use speech_synthesis_system.Base.{
  ℤ, pos, negsuc, ℕ, zero, suc, String, ◌≡◌, refl, inl, inr, Option, none, some, List, [], ◌∷◌,
  ◌++◌, Option-cases, Bool-cases, ltb, ◌^◌, ◌-◌,
}
use speech_synthesis_system.Tokens.Words.{
  Settings, Size, units, tens, hundreds, thousands, millions, size_of, joined, words_for,
  unit_names, name_in, num_2_words, ◌>>=◌,
}

module _ (st : Settings) where
  joined-cons :
      (front back : Option (List String)) (word : String) (ws : List String)
      → joined st front word back ≡ some ws
      → (w : String) × (rest : List String) × (ws ≡ w ∷ rest)
  joined-cons none back word ws h = cc
  joined-cons (some f) none word ws h = cc
  joined-cons (some []) (some b) word ws h = (word, b, cc)
  joined-cons (some (w ∷ f)) (some b) word ws h = (w, f ++ word ∷ b, cc)

  cons_then :
      (rest : Option (List String)) (name : String) (ws : List String)
      → (do r ← rest; some (name ∷ r)) ≡ some ws
      → (w : String) × (rest : List String) × (ws ≡ w ∷ rest)
  cons_then none name ws h = cc
  cons_then (some r) name ws h = (name, r, cc)

  pub words_for-cons :
      (fuel n : ℕ) (ws : List String)
      → words_for st fuel n ≡ some ws
      → (w : String) × (rest : List String) × (ws ≡ w ∷ rest)
  unfolding words_for
  words_for-cons zero n ws h = cc
  words_for-cons (suc fuel) n ws h = by_size (size_of n) refl
    where
      by_size : (s : Size) → size_of n ≡ s → (w : String) × (rest : List String) × (ws ≡ w ∷ rest)
      by_size units e = let h' = rw (e, words_for) at h in (name_in st unit_names n, [], cc)
      by_size tens e = cons_then _ _ ws (rw (e, words_for) at h)
      by_size hundreds e = joined-cons _ _ "hundred" ws (rw (e, words_for) at h)
      by_size thousands e = joined-cons _ _ "thousand" ws (rw (e, words_for) at h)
      by_size millions e = joined-cons _ _ "million" ws (rw (e, words_for) at h)

  pub num_2_words-some : (i : ℤ) → ¬ (num_2_words st i ≡ some [])
  unfolding num_2_words
  num_2_words-some (pos n) h = let (w, rest, same) = words_for-cons 5 n [] h in cc
  num_2_words-some (negsuc n) h = elim (Bool-cases (ltb n (2 ^ 31 - 1))) [
    | inl g ↦ elim (Option-cases (words_for st 5 (suc n))) [
      | inl e ↦ let h' = rw (g, e) at h in cc
      | inr (ws, e) ↦ let h' = rw (g, e) at h in cc
    ]
    | inr g ↦ let h' = rw g at h in cc
  ]
