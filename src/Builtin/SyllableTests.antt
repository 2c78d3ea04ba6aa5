-- ===== src/Builtin/SyllableTests.antt =====
-- The theorem on the phones of a syllable at a syllable of three phones.
use speech_synthesis_system.Base.{String, ◌≡◌, refl, Option, none, some, ok, List, [], ◌∷◌, str_eq}
use speech_synthesis_system.Phones.Set.{Phone, PhoneSet}
use speech_synthesis_system.Phones.State.{PhoneSets}
use speech_synthesis_system.Phones.Classes.{ph_has}
use speech_synthesis_system.Builtin.Items.{Items}
use speech_synthesis_system.Builtin.Sizes.{
  ff_syl_onsetsize, ff_syl_codasize, ff_syl_vowel, ff_syl_numphones,
}
use speech_synthesis_system.Builtin.Within.{ff_syl_onsetsize-ff_syl_codasize}

abbrev with_vc : String → Phone
with_vc vc = record { name = ""; features = ("vc", vc) ∷ [] }

abbrev small_set : PhoneSet
small_set = record {
  psetname = "small";
  silences = [];
  feature_defs = [];
  phones = ("a", with_vc "+") ∷ ("b", with_vc "-") ∷ [];
}

abbrev small_sets : PhoneSets
small_sets = record { built = small_set ∷ []; set_list = ("small", 0) ∷ []; current = some 0 }

-- A syllable and its three segments.
data Part : Type 0 where
  whole onset_b vowel_a coda_b : Part

abbrev part_name : Part → String
part_name vowel_a = "a"
part_name other = "b"

abbrev parts_from : Part → List Part
parts_from whole = whole ∷ []
parts_from onset_b = onset_b ∷ vowel_a ∷ coda_b ∷ []
parts_from vowel_a = vowel_a ∷ coda_b ∷ []
parts_from coda_b = coda_b ∷ []

abbrev parts_back : Part → List Part
parts_back whole = whole ∷ []
parts_back onset_b = onset_b ∷ []
parts_back vowel_a = vowel_a ∷ onset_b ∷ []
parts_back coda_b = coda_b ∷ vowel_a ∷ onset_b ∷ []

abbrev next_part : Part → Option Part
next_part whole = none
next_part onset_b = some vowel_a
next_part vowel_a = some coda_b
next_part coda_b = none

abbrev previous_part : Part → Option Part
previous_part whole = none
previous_part onset_b = none
previous_part vowel_a = some onset_b
previous_part coda_b = some vowel_a

abbrev small : Items
small = record {
  Item = Part;
  same = λ p q. str_eq (part_name p) (part_name q);
  item_name = part_name;
  stress = λ p. 0;
  as_relation = λ relation p. some p;
  inext = next_part;
  iprev = previous_part;
  parent = λ p. none;
  daughter1 = λ p. some onset_b;
  daughter2 = λ p. some vowel_a;
  daughtern = λ p. some coda_b;
  first = λ p. some onset_b;
  last = λ p. some coda_b;
  onward = parts_from;
  backward = parts_back;
}

-- One segment before the vowel and one behind it.
ff_syl_onsetsize-ff_syl_codasize_example :
    (ff_syl_onsetsize small small_sets whole ≡ ok 1)
    × (ff_syl_codasize small small_sets whole ≡ ok 2)
    × (ff_syl_vowel small small_sets whole ≡ ok "a")
    × (ff_syl_numphones small small_sets whole ≡ 3)
unfolding ph_has
ff_syl_onsetsize-ff_syl_codasize_example =
    ff_syl_onsetsize-ff_syl_codasize small small_sets whole (onset_b ∷ []) (vowel_a ∷ coda_b ∷ [])
      (onset_b ∷ vowel_a ∷ []) (coda_b ∷ []) refl refl refl (refl, tt) refl (refl, tt) refl
