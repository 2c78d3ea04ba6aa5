-- ===== src/Builtin/Sizes.antt =====
-- Functions of ff.cc on the phones of a syllable: `ff_syl_onsetsize`, `ff_syl_codasize`, `ff_syl_vowel` and
-- others that look for a vowel, and those on the place of a segment.
use speech_synthesis_system.Base.{
  ℕ, ◌+◌, String, Bool, false, Option, none, some, Outcome, ok, ◌>>=◌, List, [], ◌∷◌, length,
  if◌then◌else◌,
}
use speech_synthesis_system.Phones.Set.{PhoneError}
use speech_synthesis_system.Phones.State.{PhoneSets}
use speech_synthesis_system.Phones.Classes.{ph_is_vowel, ph_is_stop, ph_is_fricative}
use speech_synthesis_system.Builtin.Items.{Items, of_item, run, exists}

module _ (u : Items) (s : PhoneSets) where
  -- The loops with `size`: the items before the first vowel are counted, from `size`.
  unfoldable pub size_loop : List u.Item → ℕ → Outcome PhoneError ℕ
  size_loop [] size = ok size
  size_loop (p ∷ ps) size =
      let rest = size_loop ps (size + 1) in
      do v ← ph_is_vowel (u.item_name p) s; if v then ok size else rest

  -- The items of the daughters, from the first on and from the last back.
  abbrev pub daughters_on : Option u.Item → List u.Item
  daughters_on nn = run u.onward (of_item u.daughter1 nn)

  abbrev pub daughters_back : Option u.Item → List u.Item
  daughters_back nn = run u.backward (of_item u.daughtern nn)

  unfoldable pub ff_syl_onsetsize : u.Item → Outcome PhoneError ℕ
  unfolding size_loop
  ff_syl_onsetsize i = size_loop (daughters_on (u.as_relation "SylStructure" i)) 0

  unfoldable pub ff_syl_codasize : u.Item → Outcome PhoneError ℕ
  unfolding size_loop
  ff_syl_codasize i = size_loop (daughters_back (u.as_relation "SylStructure" i)) 1

  -- The name of the first vowel.
  unfoldable pub vowel_loop : List u.Item → Outcome PhoneError String
  vowel_loop [] = ok "novowel"
  vowel_loop (p ∷ ps) =
      let rest = vowel_loop ps in
      do v ← ph_is_vowel (u.item_name p) s; if v then ok (u.item_name p) else rest

  unfoldable pub ff_syl_vowel : u.Item → Outcome PhoneError String
  unfolding vowel_loop
  ff_syl_vowel i = vowel_loop (daughters_on (u.as_relation "SylStructure" i))

  unfoldable pub ff_syl_numphones : u.Item → ℕ
  ff_syl_numphones i = length (daughters_on (u.as_relation "SylStructure" i))

  unfoldable pub ff_word_numsyls : u.Item → ℕ
  ff_word_numsyls i = length (daughters_on (u.as_relation "SylStructure" i))

  unfoldable pub onsetcoda_loop : List u.Item → Outcome PhoneError String
  onsetcoda_loop [] = ok "coda"
  onsetcoda_loop (p ∷ ps) =
      let rest = onsetcoda_loop ps in
      do v ← ph_is_vowel (u.item_name p) s; if v then ok "onset" else rest

  unfoldable pub ff_seg_onsetcoda : u.Item → Outcome PhoneError String
  unfolding onsetcoda_loop
  ff_seg_onsetcoda i =
      onsetcoda_loop (run u.onward (of_item u.inext (u.as_relation "SylStructure" i)))

  -- `val_string1` where a phone of the class comes before a vowel.
  unfoldable pub class_loop :
      (String → PhoneSets → Outcome PhoneError Bool) → List u.Item → Outcome PhoneError String
  class_loop in_class [] = ok "0"
  class_loop in_class (p ∷ ps) =
      let rest = class_loop in_class ps in
      let consonant = (do c ← in_class (u.item_name p) s; if c then ok "1" else rest) in
      do v ← ph_is_vowel (u.item_name p) s; if v then ok "0" else consonant

  unfoldable pub ff_seg_onset_stop : u.Item → Outcome PhoneError String
  unfolding class_loop
  ff_seg_onset_stop i =
      class_loop ph_is_stop (run u.onward (of_item u.first (u.as_relation "SylStructure" i)))

  unfoldable pub ff_seg_coda_fric : u.Item → Outcome PhoneError String
  unfolding class_loop
  ff_seg_coda_fric i =
      class_loop ph_is_fricative (run u.backward (of_item u.last (u.as_relation "SylStructure" i)))

module _ (u : Items) where
  abbrev pub is_same : Option u.Item → u.Item → Bool
  is_same none p = false
  is_same (some q) p = u.same p q

  -- The loops with `pos`, and those with `count` up to an item.
  unfoldable pub steps_to : Option u.Item → List u.Item → ℕ → ℕ
  steps_to stop [] count = count
  steps_to stop (p ∷ ps) count =
      let rest = steps_to stop ps (count + 1) in if is_same stop p then count else rest

  unfoldable pub position_in : String → u.Item → ℕ
  unfolding steps_to
  position_in relation i =
      let nn = u.as_relation relation i in steps_to nn (run u.onward (of_item u.first nn)) 0

  abbrev pub ff_seg_pos_in_syl : u.Item → ℕ
  ff_seg_pos_in_syl i = position_in "SylStructure" i

  abbrev pub ff_syl_pos_in_word : u.Item → ℕ
  ff_syl_pos_in_word i = position_in "SylStructure" i

  abbrev pub ff_pos_in_phrase : u.Item → ℕ
  ff_pos_in_phrase i = position_in "Phrase" i

  unfoldable pub ff_seg_syl_initial : u.Item → String
  ff_seg_syl_initial i =
      if exists (of_item u.iprev (u.as_relation "SylStructure" i)) then "0" else "1"

  unfoldable pub ff_seg_syl_final : u.Item → String
  ff_seg_syl_final i =
      if exists (of_item u.inext (u.as_relation "SylStructure" i)) then "0" else "1"

  unfoldable pub ff_words_out : u.Item → ℕ
  ff_words_out i = length (run u.onward (u.as_relation "Phrase" i))
