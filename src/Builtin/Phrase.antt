-- ===== src/Builtin/Phrase.antt =====
-- What the functions of ff.cc count from a syllable to the ends of its phrase.
use speech_synthesis_system.Base.{
  ◌≡◌, refl, sym, ap, ◌∙◌, Bool, true, some, List, [], ◌∷◌, ◌++◌, length, reverse, append-nil,
  if◌then◌else◌, arith, All-reverse, tail,
}
use speech_synthesis_system.Builtin.Items.{Items, Laws, run}
use speech_synthesis_system.Builtin.Counts.{
  fsyl, lsyl, count_before, count_with, in_before, in_with, out_with, ff_syl_in, ff_syl_out,
  is_stressed, is_accented, ff_ssyl_in, ff_ssyl_in_modified_version, ff_ssyl_out, ff_asyl_in,
  ff_asyl_in_modified_version, ff_asyl_out,
}
use speech_synthesis_system.Builtin.Loops.{
  number_of, number_of-reverse, IsNot, IsFirst, IsLast, first_back, count_before-IsNot,
  count_with-IsNot, steps_to-IsLast, count_with-IsLast, steps_to-IsFirst,
}

module _ (u : Items) (laws : Laws u) (test : u.Item → Bool) where
  number_back :
      (f p : u.Item) (before : List u.Item)
      → f ≡ p
      → number_of u test (reverse before ++ f ∷ []) ≡ number_of u test (p ∷ before)
  number_back f p before h =
      ap (number_of u test) (sym (first_back u f p before [] h) ∙ append-nil (reverse (p ∷ before)))
      ∙ number_of-reverse u test (p ∷ before)

  with_first :
      (f nn : u.Item) (before sooner : List u.Item)
      → IsFirst u f before nn
      → (if u.same nn f then 0 else count_with u test (some f) (reverse before ++ sooner) 0)
        ≡ number_of u test before
  with_first f nn [] sooner h = rw (ap (λ x. u.same x f) (sym h) ∙ laws.same_lem f) refl
  with_first f nn (p ∷ before) sooner h =
      rw (h.1.0, first_back u f p before sooner h.0)
        (count_with-IsNot u test f (reverse before) sooner 0 (laws.same_lem f)
            (All-reverse (IsNot u f) before h.1.1)
          ∙ omega (arith, number_back f p before h.0))

  before_first :
      (f nn : u.Item) (before sooner : List u.Item)
      → IsFirst u f before nn
      → (if u.same nn f then 0 else count_before u test (some f) (reverse before ++ sooner) 0)
        ≡ number_of u test (tail before)
  before_first f nn [] sooner h = rw (ap (λ x. u.same x f) (sym h) ∙ laws.same_lem f) refl
  before_first f nn (p ∷ before) sooner h =
      rw (h.1.0, first_back u f p before sooner h.0)
        (count_before-IsNot u test f (reverse before) sooner 0 (laws.same_lem f)
            (All-reverse (IsNot u f) before h.1.1)
          ∙ omega (arith, number_of-reverse u test before))

  with_last :
      (e nn : u.Item) (after later : List u.Item)
      → IsLast u e nn after
      → (if u.same nn e then 0 else count_with u test (some e) (after ++ later) 0)
        ≡ number_of u test after
  with_last e nn [] later h = rw (ap (λ x. u.same x e) (sym h) ∙ laws.same_lem e) refl
  with_last e nn (p ∷ after) later h =
      rw (h.0) (count_with-IsLast u laws.same_lem test e p after later 0 h.1 ∙ omega arith)

module _ (u : Items) (laws : Laws u) (i nn f e : u.Item) (before after sooner later : List u.Item)
    (syllable : u.as_relation "Syllable" i ≡ some nn) (first_is : fsyl u i ≡ some f)
    (last_is : lsyl u i ≡ some e) (back : u.backward nn ≡ nn ∷ reverse before ++ sooner)
    (on : u.onward nn ≡ nn ∷ after ++ later) (is_first : IsFirst u f before nn)
    (is_last : IsLast u e nn after) where
  syl_in : ff_syl_in u i ≡ length before
  unfolding ff_syl_in
  syl_in =
      rw (first_is, syllable, back)
        (steps_to-IsFirst u laws.same_lem (λ p. true) f nn before sooner is_first)

  syl_out : ff_syl_out u i ≡ length after
  unfolding ff_syl_out
  syl_out =
      rw (last_is, syllable, on)
        (steps_to-IsLast u laws.same_lem (λ p. true) e nn after later 0 is_last ∙ omega arith)

  going_back : run u.backward (u.iprev nn) ≡ reverse before ++ sooner
  going_back = ap tail (sym (laws.backward_lem nn) ∙ back)

  going_on : run u.onward (u.inext nn) ≡ after ++ later
  going_on = ap tail (sym (laws.onward_lem nn) ∙ on)

  module _ (test : u.Item → Bool) where
    in_with_lem : in_with u test i ≡ number_of u test before
    unfolding in_with
    in_with_lem =
        rw (syllable, first_is, going_back) (with_first u laws test f nn before sooner is_first)

    in_before_lem : in_before u test i ≡ number_of u test (tail before)
    unfolding in_before
    in_before_lem =
        rw (syllable, first_is, going_back) (before_first u laws test f nn before sooner is_first)

    out_with_lem : out_with u test i ≡ number_of u test after
    unfolding out_with
    out_with_lem = rw (syllable, last_is, going_on) (with_last u laws test e nn after later is_last)

  -- For a syllable among those of its phrase, of which the first and the last are the ones that its words
  -- lead to, `ff_syl_in` is the number of syllables before it in the phrase and `ff_syl_out` of those behind
  -- it; `ff_ssyl_in_modified_version` and `ff_ssyl_out` are the numbers of stressed syllables before and
  -- behind it, and `ff_asyl_in_modified_version` and `ff_asyl_out` those of accented ones. `ff_ssyl_in` and
  -- `ff_asyl_in` leave out the first syllable of the phrase.
  pub ff_syl_in-ff_syl_out :
      (ff_syl_in u i ≡ length before)
      × (ff_syl_out u i ≡ length after)
      × (ff_ssyl_in_modified_version u i ≡ number_of u (is_stressed u) before)
      × (ff_ssyl_in u i ≡ number_of u (is_stressed u) (tail before))
      × (ff_ssyl_out u i ≡ number_of u (is_stressed u) after)
      × (ff_asyl_in_modified_version u i ≡ number_of u (is_accented u) before)
      × (ff_asyl_in u i ≡ number_of u (is_accented u) (tail before))
      × (ff_asyl_out u i ≡ number_of u (is_accented u) after)
  ff_syl_in-ff_syl_out = (
    syl_in,
    syl_out,
    in_with_lem (is_stressed u),
    in_before_lem (is_stressed u),
    out_with_lem (is_stressed u),
    in_with_lem (is_accented u),
    in_before_lem (is_accented u),
    out_with_lem (is_accented u),
  )
