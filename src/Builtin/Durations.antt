-- ===== src/Builtin/Durations.antt =====
-- The durations of ff.cc are differences of its ends and starts.
use speech_synthesis_system.Base.{◌≡◌, refl, sym, ap, Option, none, some, ok}
use speech_synthesis_system.Builtin.Items.{Items, of_item}
use speech_synthesis_system.Builtin.Times.{
  Clock, since, end_or_zero, spanned, or_zero, ff_segment_duration, ff_syllable_duration,
  ff_word_duration, ff_seg_start, ff_seg_end, ff_syl_start, ff_syl_end, ff_word_start, ff_word_end,
}

module _ (u : Items) (c : Clock u)
    (minus-zero_time : (x : c.Time) → c.minus x c.zero_time ≡ x) where
  since_lem : (x : c.Time) (p : Option u.Item) → since u c x p ≡ c.minus x (end_or_zero u c p)
  since_lem x none = sym (minus-zero_time x)
  since_lem x (some p) = refl

  segment_lem :
      (s n : u.Item)
      → u.as_relation "Segment" s ≡ some n
      → ff_segment_duration u c s ≡ ok (c.minus (ff_seg_end u c s) (ff_seg_start u c s))
  unfolding ff_segment_duration ff_seg_start ff_seg_end
  segment_lem s n e = rw (e, ff_segment_duration) (ap ok (since_lem (c.f_end s) (u.iprev n)))

  syllable_lem :
      (s n fd ld : u.Item)
      → u.as_relation "SylStructure" s ≡ some n
      → u.daughter1 n ≡ some fd
      → u.daughtern n ≡ some ld
      → u.last fd ≡ some ld
      → ff_syllable_duration u c s ≡ ok (c.minus (ff_syl_end u c s) (ff_syl_start u c s))
  unfolding ff_syllable_duration ff_seg_start ff_seg_end ff_syl_start ff_syl_end spanned or_zero
  syllable_lem s n fd ld e first last same =
      rw (e, ff_syllable_duration, first, last, same)
        (ap ok (since_lem (c.f_end ld) (of_item u.iprev (u.as_relation "Segment" fd))))

  word_lem :
      (s n a z fd ld : u.Item)
      → u.as_relation "SylStructure" s ≡ some n
      → u.daughter1 n ≡ some a
      → u.daughtern n ≡ some z
      → u.as_relation "SylStructure" z ≡ some z
      → u.daughter1 a ≡ some fd
      → u.daughtern z ≡ some ld
      → ff_word_duration u c s ≡ ok (c.minus (ff_word_end u c s) (ff_word_start u c s))
  unfolding ff_word_duration ff_seg_start ff_seg_end ff_syl_end ff_word_start ff_word_end spanned
      or_zero
  word_lem s n a z fd ld e to_a to_z own first last =
      rw (e, ff_word_duration, to_a, to_z, own, first, last)
        (ap ok (since_lem (c.f_end ld) (of_item u.iprev (u.as_relation "Segment" fd))))

  -- For a word with its first and last syllable, the last syllable's segments and the last of these, with a
  -- difference that takes 0 away as it should, the durations of the word, of the last syllable and of the
  -- last segment are each the difference of its end and its start, whether or not there is a segment before
  -- it, and the three end at the same time.
  pub ff_word_duration-ff_word_end :
      (w n a z fd zf ld ls : u.Item)
      → u.as_relation "SylStructure" w ≡ some n
      → u.daughter1 n ≡ some a
      → u.daughtern n ≡ some z
      → u.as_relation "SylStructure" z ≡ some z
      → u.daughter1 a ≡ some fd
      → u.daughter1 z ≡ some zf
      → u.daughtern z ≡ some ld
      → u.last zf ≡ some ld
      → u.as_relation "Segment" ld ≡ some ls
      → (ff_word_duration u c w ≡ ok (c.minus (ff_word_end u c w) (ff_word_start u c w)))
        × (ff_syllable_duration u c z ≡ ok (c.minus (ff_syl_end u c z) (ff_syl_start u c z)))
        × (ff_segment_duration u c ld ≡ ok (c.minus (ff_seg_end u c ld) (ff_seg_start u c ld)))
        × (ff_word_end u c w ≡ ff_syl_end u c z)
        × (ff_syl_end u c z ≡ ff_seg_end u c ld)
  unfolding ff_word_end ff_syl_end or_zero
  ff_word_duration-ff_word_end w n a z fd zf ld ls e to_a to_z own first last_first last same
        segment =
      (
        word_lem w n a z fd ld e to_a to_z own first last,
        syllable_lem z z zf ld own last_first last same,
        segment_lem ld ls segment,
        rw (e, to_z) refl,
        rw (own, last) refl,
      )
