-- ===== src/TargetCost/Tests.antt =====
-- The theorem on target costs at a word of two phones.
use speech_synthesis_system.Base.{
  ◌*◌, String, ◌≡◌, refl, inl, inr, true, Option, none, some, ok, [], ◌∷◌, str_eq, if◌then◌else◌,
}
use speech_synthesis_system.Phones.Set.{Phone, PhoneSet}
use speech_synthesis_system.Phones.State.{PhoneSets}
use speech_synthesis_system.Phones.Classes.{ph_has, ph_is_silence}
use speech_synthesis_system.Builtin.Items.{Items}
use speech_synthesis_system.TargetCost.Contexts.{Contents, is_spoken_vowel}
use speech_synthesis_system.TargetCost.Costs.{bad_f0_cost, default_target_cost}
use speech_synthesis_system.TargetCost.Itself.{default_target_cost-same}

abbrev with_class : String → Phone
with_class vc = record { name = ""; features = ("vc", vc) ∷ [] }

abbrev small_set : PhoneSet
small_set = record {
  psetname = "small";
  silences = "pau" ∷ [];
  feature_defs = [];
  phones = ("a", with_class "+") ∷ ("b", with_class "-") ∷ [];
}

abbrev small_sets : PhoneSets
small_sets = record { built = small_set ∷ []; set_list = ("small", 0) ∷ []; current = some 0 }

-- Two segments, their syllable, their word, the word as a part of its token, and the token.
data Node : Type 0 where
  seg_b seg_a syllable whole_word part_of_token token : Node

abbrev above : Node → Option Node
above seg_b = some syllable
above seg_a = some syllable
above syllable = some whole_word
above part_of_token = some token
above other = none

abbrev relation_of : String → Node → Option Node
relation_of relation whole_word =
    if str_eq relation "Token" then some part_of_token else some whole_word
relation_of relation other = some other

abbrev next_unit : Node → Option Node
next_unit seg_b = some seg_a
next_unit other = none

abbrev previous_unit : Node → Option Node
previous_unit seg_a = some seg_b
previous_unit other = none

abbrev units : Items
units = record {
  Item = Node;
  same = λ p q. true;
  item_name = λ p. "";
  stress = λ p. 1;
  as_relation = relation_of;
  inext = next_unit;
  iprev = previous_unit;
  parent = above;
  daughter1 = λ p. none;
  daughter2 = λ p. none;
  daughtern = λ p. none;
  first = λ p. none;
  last = λ p. none;
  onward = λ p. p ∷ [];
  backward = λ p. p ∷ [];
}

abbrev feature_of_unit : String → Node → Option String
feature_of_unit f seg_b = if str_eq f "name" then some "b" else none
feature_of_unit f seg_a =
    if str_eq f "name" then some "a" else if str_eq f "midcoef" then some "" else none
feature_of_unit f whole_word =
    if str_eq f "pos" then some "nn" else if str_eq f "pbreak" then some "NB" else none
feature_of_unit f other = none

-- The vowel is marked as unvoiced.
abbrev unit_contents : Contents units
unit_contents = record { feature = feature_of_unit; is_unvoiced = λ p. true }

default_target_cost-same_example :
    default_target_cost units unit_contents small_sets seg_b seg_b
    ≡ ok (record { weighted = 0; weight_sum = 48; bad_halves = 10 * 1 })
unfolding bad_f0_cost is_spoken_vowel ph_has ph_is_silence
default_target_cost-same_example =
    default_target_cost-same units unit_contents small_sets seg_b seg_a 1 refl (inl refl)
      (inr (refl, refl)) refl refl refl refl refl refl
