-- ===== src/Builtin/Within.antt =====
-- What the functions of ff.cc on the phones of a syllable give for a syllable with a vowel and for one
-- without.
use speech_synthesis_system.Base.{
  ℕ, suc, ◌+◌, String, ◌≡◌, refl, sym, ap, ◌∙◌, true, false, ok, List, [], ◌∷◌, ◌++◌, length,
  length-append, length-reverse, reverse, reverse-append, append-nil, All-reverse, arith, All,
}
use speech_synthesis_system.Phones.State.{PhoneSets}
use speech_synthesis_system.Phones.Classes.{ph_is_vowel}
use speech_synthesis_system.Builtin.Items.{Items}
use speech_synthesis_system.Builtin.Sizes.{
  size_loop, vowel_loop, daughters_on, daughters_back, ff_syl_onsetsize, ff_syl_codasize,
  ff_syl_vowel, ff_syl_numphones,
}

module _ (u : Items) (s : PhoneSets) where
  -- A phone of the current set that is a vowel, or that is not.
  abbrev pub IsVowel : u.Item → Type 0
  IsVowel p = ph_is_vowel (u.item_name p) s ≡ ok true

  abbrev pub IsOther : u.Item → Type 0
  IsOther p = ph_is_vowel (u.item_name p) s ≡ ok false

  size_loop-IsOther :
      (ps : List u.Item) (size : ℕ) → All IsOther ps → size_loop u s ps size ≡ ok (size + length ps)
  unfolding size_loop
  size_loop-IsOther [] size h = ap ok (omega arith)
  size_loop-IsOther (p ∷ ps) size h =
      rw (h.0, size_loop) (size_loop-IsOther ps (size + 1) h.1 ∙ ap ok (omega arith))

  size_loop-IsVowel :
      (ps : List u.Item) (v : u.Item) (rest : List u.Item) (size : ℕ)
      → All IsOther ps
      → IsVowel v
      → size_loop u s (ps ++ v ∷ rest) size ≡ ok (size + length ps)
  unfolding size_loop
  size_loop-IsVowel [] v rest size h is = rw (is, size_loop) (ap ok (omega arith))
  size_loop-IsVowel (p ∷ ps) v rest size h is =
      rw (h.0, size_loop) (size_loop-IsVowel ps v rest (size + 1) h.1 is ∙ ap ok (omega arith))

  vowel_loop-IsOther : (ps : List u.Item) → All IsOther ps → vowel_loop u s ps ≡ ok "novowel"
  unfolding vowel_loop
  vowel_loop-IsOther [] h = refl
  vowel_loop-IsOther (p ∷ ps) h = rw (h.0, vowel_loop) (vowel_loop-IsOther ps h.1)

  vowel_loop-IsVowel :
      (ps : List u.Item) (v : u.Item) (rest : List u.Item)
      → All IsOther ps
      → IsVowel v
      → vowel_loop u s (ps ++ v ∷ rest) ≡ ok (u.item_name v)
  unfolding vowel_loop
  vowel_loop-IsVowel [] v rest h is = rw (is, vowel_loop) refl
  vowel_loop-IsVowel (p ∷ ps) v rest h is =
      rw (h.0, vowel_loop) (vowel_loop-IsVowel ps v rest h.1 is)

  -- There is nothing, or a vowel is first.
  abbrev pub IsFromVowel : List u.Item → Type 0
  IsFromVowel [] = Unit
  IsFromVowel (v ∷ rest) = IsVowel v

  abbrev pub first_name : List u.Item → String
  first_name [] = "novowel"
  first_name (v ∷ rest) = u.item_name v

  size_loop-IsFromVowel :
      (ps rest : List u.Item) (size : ℕ)
      → All IsOther ps
      → IsFromVowel rest
      → size_loop u s (ps ++ rest) size ≡ ok (size + length ps)
  size_loop-IsFromVowel ps [] size h is =
      ap (λ l. size_loop u s l size) (append-nil ps) ∙ size_loop-IsOther ps size h
  size_loop-IsFromVowel ps (v ∷ rest) size h is = size_loop-IsVowel ps v rest size h is

  vowel_loop-IsFromVowel :
      (ps rest : List u.Item)
      → All IsOther ps
      → IsFromVowel rest
      → vowel_loop u s (ps ++ rest) ≡ ok (first_name rest)
  vowel_loop-IsFromVowel ps [] h is = ap (vowel_loop u s) (append-nil ps) ∙ vowel_loop-IsOther ps h
  vowel_loop-IsFromVowel ps (v ∷ rest) h is = vowel_loop-IsVowel ps v rest h is

  -- Where a syllable's segments are phones of the current set, `onset` those before its first vowel and
  -- `coda` those behind its last one, or each of them all the segments where there is no vowel,
  -- `ff_syl_onsetsize` is the number of segments in `onset`, `ff_syl_codasize` is one more than the number
  -- in `coda`, `ff_syl_vowel` is the name of the first vowel, or `novowel`, and `ff_syl_numphones` the
  -- number of segments.
  pub ff_syl_onsetsize-ff_syl_codasize :
      (i : u.Item) (onset rest front coda : List u.Item)
      → daughters_on u s (u.as_relation "SylStructure" i) ≡ onset ++ rest
      → daughters_back u s (u.as_relation "SylStructure" i) ≡ reverse (front ++ coda)
      → front ++ coda ≡ onset ++ rest
      → All IsOther onset
      → IsFromVowel rest
      → All IsOther coda
      → IsFromVowel (reverse front)
      → (ff_syl_onsetsize u s i ≡ ok (length onset))
        × (ff_syl_codasize u s i ≡ ok (suc (length coda)))
        × (ff_syl_vowel u s i ≡ ok (first_name rest))
        × (ff_syl_numphones u s i ≡ length front + length coda)
  unfolding ff_syl_onsetsize ff_syl_codasize ff_syl_vowel ff_syl_numphones
  ff_syl_onsetsize-ff_syl_codasize i onset rest front coda on back same o r c f = (
    ap (λ l. size_loop u s l 0) on ∙ size_loop-IsFromVowel onset rest 0 o r ∙ ap ok (omega arith),
    ap (λ l. size_loop u s l 1) (back ∙ reverse-append front coda)
        ∙ size_loop-IsFromVowel (reverse coda) (reverse front) 1 (All-reverse IsOther coda c) f
        ∙ ap ok (omega (arith, length-reverse coda)),
    ap (vowel_loop u s) on ∙ vowel_loop-IsFromVowel onset rest o r,
    ap length (on ∙ sym same) ∙ length-append front coda,
  )
