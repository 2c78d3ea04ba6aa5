-- ===== src/Builtin/TimeTests.antt =====
-- The theorem on durations at a word of two syllables.
use speech_synthesis_system.Base.{
  ℕ, ◌-◌, ◌+◌, ◌/◌, ◌≡◌, refl, arith, true, Option, none, some, ok, [], ◌∷◌,
}
use speech_synthesis_system.Builtin.Items.{Items}
use speech_synthesis_system.Builtin.Times.{
  Clock, ff_segment_duration, ff_syllable_duration, ff_word_duration, ff_seg_start, ff_seg_end,
  ff_syl_start, ff_syl_end, ff_word_start, ff_word_end,
}
use speech_synthesis_system.Builtin.Durations.{ff_word_duration-ff_word_end}

-- A word, its two syllables, and a segment of the first and two of the second.
data Node : Type 0 where
  word first_syl second_syl seg1 seg2 seg3 : Node

abbrev next_node : Node → Option Node
next_node first_syl = some second_syl
next_node seg2 = some seg3
next_node other = none

abbrev previous_node : Node → Option Node
previous_node second_syl = some first_syl
previous_node seg2 = some seg1
previous_node seg3 = some seg2
previous_node other = none

abbrev first_daughter : Node → Option Node
first_daughter word = some first_syl
first_daughter first_syl = some seg1
first_daughter second_syl = some seg2
first_daughter other = none

abbrev last_daughter : Node → Option Node
last_daughter word = some second_syl
last_daughter first_syl = some seg1
last_daughter second_syl = some seg3
last_daughter other = none

abbrev last_sibling : Node → Option Node
last_sibling first_syl = some second_syl
last_sibling seg2 = some seg3
last_sibling other = some other

-- `inext`, `onward` and `backward` are not asked here.
abbrev nodes : Items
nodes = record {
  Item = Node;
  same = λ p q. true;
  item_name = λ p. "";
  stress = λ p. 0;
  as_relation = λ relation p. some p;
  inext = next_node;
  iprev = previous_node;
  parent = λ p. none;
  daughter1 = first_daughter;
  daughter2 = λ p. none;
  daughtern = last_daughter;
  first = λ p. some p;
  last = last_sibling;
  onward = λ p. p ∷ [];
  backward = λ p. p ∷ [];
}

abbrev end_of : Node → ℕ
end_of seg1 = 10
end_of seg2 = 25
end_of other = 60

abbrev hundredths : Clock nodes
hundredths = record {
  Time = ℕ;
  zero_time = 0;
  minus = ◌-◌;
  mean = λ a b. (a + b) / 2;
  f_end = end_of;
}

minus_zero : (x : ℕ) → x - 0 ≡ x
minus_zero x = omega arith

ff_word_duration-ff_word_end_example :
    (ff_word_duration nodes hundredths word
      ≡ ok (ff_word_end nodes hundredths word - ff_word_start nodes hundredths word))
    × (ff_syllable_duration nodes hundredths second_syl
        ≡ ok (ff_syl_end nodes hundredths second_syl - ff_syl_start nodes hundredths second_syl))
    × (ff_segment_duration nodes hundredths seg3
        ≡ ok (ff_seg_end nodes hundredths seg3 - ff_seg_start nodes hundredths seg3))
    × (ff_word_end nodes hundredths word ≡ ff_syl_end nodes hundredths second_syl)
    × (ff_syl_end nodes hundredths second_syl ≡ ff_seg_end nodes hundredths seg3)
ff_word_duration-ff_word_end_example =
    ff_word_duration-ff_word_end nodes hundredths minus_zero word word first_syl second_syl seg1
      seg2 seg3 seg3 refl refl refl refl refl refl refl refl refl

thirty_five : ff_segment_duration nodes hundredths seg3 ≡ ok 35
unfolding ff_segment_duration
thirty_five = refl
