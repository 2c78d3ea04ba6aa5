-- ===== src/Builtin/Times.antt =====
-- Functions of ff.cc on the times of segments, syllables and words.
use speech_synthesis_system.Base.{
  Option, none, some, Outcome, ok, err, ◌>>=◌, List, [], ◌∷◌, if◌then◌else◌,
}
use speech_synthesis_system.Phones.Set.{PhoneError}
use speech_synthesis_system.Phones.State.{PhoneSets}
use speech_synthesis_system.Phones.Classes.{ph_is_vowel}
use speech_synthesis_system.Builtin.Items.{Items, of_item, run}

-- The message before `festival_error`.
pub data TimeError : Type 0 where
  not_in_segment not_in_sylstructure : TimeError

-- The floats, of which the functions use 0, the difference and the mean, and the feature `end`, or 0.
pub record Clock (u : Items) : Type 1 where
  pub Time : Type 0
  pub zero_time : Time
  pub minus : Time → Time → Time
  pub mean : Time → Time → Time
  pub f_end : u.Item → Time

module _ (u : Items) (c : Clock u) where
  -- From the end of the item before, if any.
  abbrev pub since : c.Time → Option u.Item → c.Time
  since end_time none = end_time
  since end_time (some p) = c.minus end_time (c.f_end p)

  abbrev pub end_or_zero : Option u.Item → c.Time
  end_or_zero none = c.zero_time
  end_or_zero (some p) = c.f_end p

  unfoldable pub ff_segment_duration : u.Item → Outcome TimeError c.Time
  ff_segment_duration s = elim (u.as_relation "Segment" s) [
    | none ↦ err not_in_segment
    | some n ↦ ok (since (c.f_end s) (u.iprev n))
  ]

  -- From the end of the segment before `fd` to that of `ld`.
  unfoldable pub spanned : Option u.Item → Option u.Item → c.Time
  spanned fd none = c.zero_time
  spanned fd (some ld) = since (c.f_end ld) (of_item u.iprev (of_item (u.as_relation "Segment") fd))

  unfoldable pub ff_syllable_duration : u.Item → Outcome TimeError c.Time
  unfolding spanned
  ff_syllable_duration s = elim (u.as_relation "SylStructure" s) [
    | none ↦ err not_in_sylstructure
    | some n ↦ ok (spanned (u.daughter1 n) (of_item u.last (u.daughter1 n)))
  ]

  unfoldable pub ff_word_duration : u.Item → Outcome TimeError c.Time
  unfolding spanned
  ff_word_duration s = elim (u.as_relation "SylStructure" s) [
    | none ↦ err not_in_sylstructure
    | some n ↦
        ok (spanned (of_item u.daughter1 (u.daughter1 n)) (of_item u.daughtern (u.daughtern n)))
  ]

  unfoldable pub ff_seg_start : u.Item → c.Time
  ff_seg_start s = end_or_zero (of_item u.iprev (u.as_relation "Segment" s))

  unfoldable pub or_zero : (u.Item → c.Time) → Option u.Item → c.Time
  or_zero f none = c.zero_time
  or_zero f (some p) = f p

  unfoldable pub ff_syl_start : u.Item → c.Time
  unfolding or_zero ff_seg_start
  ff_syl_start s = or_zero ff_seg_start (of_item u.daughter1 (u.as_relation "SylStructure" s))

  unfoldable pub ff_word_start : u.Item → c.Time
  unfolding or_zero ff_seg_start
  ff_word_start s =
      or_zero ff_seg_start
        (of_item u.daughter1 (of_item u.daughter1 (u.as_relation "SylStructure" s)))

  unfoldable pub ff_seg_end : u.Item → c.Time
  ff_seg_end s = c.f_end s

  unfoldable pub ff_seg_mid : u.Item → c.Time
  unfolding ff_seg_start ff_seg_end
  ff_seg_mid s = c.mean (ff_seg_start s) (ff_seg_end s)

  unfoldable pub ff_syl_end : u.Item → c.Time
  unfolding or_zero ff_seg_end
  ff_syl_end s = or_zero ff_seg_end (of_item u.daughtern (u.as_relation "SylStructure" s))

  unfoldable pub ff_word_end : u.Item → c.Time
  unfolding or_zero ff_syl_end
  ff_word_end s = or_zero ff_syl_end (of_item u.daughtern (u.as_relation "SylStructure" s))

  module _ (s : PhoneSets) where
    -- The loop of `ff_syl_vowel_start`; behind it `p` is no item, of which `ff_syl_start` gives 0.
    unfoldable pub vowel_start_loop : List u.Item → Outcome PhoneError c.Time
    unfolding ff_seg_start
    vowel_start_loop [] = ok c.zero_time
    vowel_start_loop (p ∷ ps) =
        let rest = vowel_start_loop ps in
        do v ← ph_is_vowel (u.item_name p) s; if v then ok (ff_seg_start p) else rest

    unfoldable pub ff_syl_vowel_start : u.Item → Outcome PhoneError c.Time
    unfolding vowel_start_loop
    ff_syl_vowel_start i =
        vowel_start_loop (run u.onward (of_item u.daughter1 (u.as_relation "SylStructure" i)))
