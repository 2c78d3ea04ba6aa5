-- ===== src/TargetCost/Flat/Tests.antt =====
-- The theorems on the flat target cost at a word of two phones.
use speech_synthesis_system.Base.{
  ℕ, ◌*◌, ◌/◌, ◌≤◌, String, ◌≡◌, refl, inl, inr, ◌⊎◌, true, false, Option, none, some, ok, [], ◌∷◌,
  str_eq, ◌==◌, if◌then◌else◌, arith,
}
use speech_synthesis_system.Phones.Set.{Phone}
use speech_synthesis_system.Phones.State.{PhoneSets}
use speech_synthesis_system.Phones.Classes.{ph_has, ph_is_silence}
use speech_synthesis_system.Builtin.Items.{Items}
use speech_synthesis_system.TargetCost.Contexts.{Contents, tc_get_syl, tc_get_word}
use speech_synthesis_system.TargetCost.Costs as Plain
use speech_synthesis_system.TargetCost.Flat.Costs
use speech_synthesis_system.TargetCost.Flat.Numbers.{
  PhoneHash, simple_phone, simple_punc, simple_pos, place,
}
use speech_synthesis_system.TargetCost.Flat.Packing.{
  TcData, simple_id, pbreak_of, get_bad_f0, flatpack, pack, ask,
}
use speech_synthesis_system.TargetCost.Flat.Hash.{IsNumbering}
use speech_synthesis_system.TargetCost.Flat.Packed.{HasUnits}
use speech_synthesis_system.TargetCost.Flat.Places.{HasIds}
use speech_synthesis_system.TargetCost.Flat.Agreeing.{flatpack-agrees}
use speech_synthesis_system.TargetCost.Flat.Itself.{flat_target_cost-same, get_bad_f0-bad_f0_cost}

abbrev with_class : String → Phone
with_class vc = record { name = ""; features = ("vc", vc) ∷ [] }

abbrev small_sets : PhoneSets
small_sets = record {
  built =
      record {
        psetname = "small";
        silences = "pau" ∷ [];
        feature_defs = [];
        phones = ("a", with_class "+") ∷ ("b", with_class "-") ∷ [];
      }
      ∷ [];
  set_list = ("small", 0) ∷ [];
  current = some 0;
}

-- Three segments in two syllables of one word, the word as a part of its token, and the token.
data Place : Type 0 where
  seg_b seg_a seg_c first_syllable second_syllable whole_word part_of_token token : Place

abbrev above : Place → Option Place
above seg_b = some first_syllable
above seg_a = some first_syllable
above seg_c = some second_syllable
above first_syllable = some whole_word
above second_syllable = some whole_word
above part_of_token = some token
above other = none

abbrev relation_of : String → Place → Option Place
relation_of relation whole_word =
    if str_eq relation "Token" then some part_of_token else some whole_word
relation_of relation other = some other

abbrev next_place : Place → Option Place
next_place seg_b = some seg_a
next_place seg_a = some seg_c
next_place other = none

abbrev previous_place : Place → Option Place
previous_place seg_a = some seg_b
previous_place seg_c = some seg_a
previous_place other = none

abbrev id_text : Place → String
id_text first_syllable = "_3"
id_text second_syllable = "_4"
id_text whole_word = "_7"
id_text other = "_9"

abbrev number_after : String → ℕ
number_after t =
    if str_eq t "_3" then 3 else if str_eq t "_4" then 4 else if str_eq t "_7" then 7 else 9

abbrev places : Items
places = record {
  Item = Place;
  same = λ p q. number_after (id_text p) == number_after (id_text q);
  item_name = λ p. "";
  stress = λ p. 1;
  as_relation = relation_of;
  inext = next_place;
  iprev = previous_place;
  parent = above;
  daughter1 = λ p. none;
  daughter2 = λ p. none;
  daughtern = λ p. none;
  first = λ p. none;
  last = λ p. none;
  onward = λ p. p ∷ [];
  backward = λ p. p ∷ [];
}

abbrev name_text : Place → String
name_text seg_a = "a"
name_text other = "b"

abbrev feature_at : String → Place → Option String
feature_at f p =
    if str_eq f "name"
    then some (name_text p)
    else if str_eq f "id"
    then some (id_text p)
    else if str_eq f "midcoef"
    then some ""
    else if str_eq f "pos"
    then some "in"
    else if str_eq f "pbreak"
    then some ""
    else none

-- The vowel is marked as unvoiced.
abbrev contents : Contents places
contents = record { feature = feature_at; is_unvoiced = λ p. true }

abbrev empty_hash : PhoneHash
empty_hash = record { numbers = []; phone_count = 0 }

empty_hash-IsNumbering : IsNumbering empty_hash
empty_hash-IsNumbering = record {
  counted = λ a n e. absurd (cc);
  single = λ a b n e f. absurd (cc);
}

abbrev packed_b : TcData
packed_b = record {
  vowel = false;
  sil = false;
  bad_dur = false;
  nbad_dur = false;
  bad_ool = false;
  nbad_ool = false;
  bad_f0 = 0;
  syl = 3;
  syl_stress = 1;
  n_sil = false;
  n_vowel = true;
  nsyl = 3;
  nsyl_stress = 1;
  rc = 1;
  nnbad_dur = false;
  nnsyl = 4;
  lc = 0;
  pbad_dur = false;
  psyl = 0;
  wqrd = 7;
  nwqrd = 7;
  nnwqrd = 7;
  pwqrd = 0;
  sylpos = 2;
  wqrdpos = 2;
  pbreak = some 2;
  pos = some 0;
  punc = some 0;
  npos = some 0;
  npunc = some 0;
}

abbrev packed_a : TcData
packed_a = record {
  vowel = true;
  sil = false;
  bad_dur = false;
  nbad_dur = false;
  bad_ool = false;
  nbad_ool = false;
  bad_f0 = 0;
  syl = 3;
  syl_stress = 1;
  n_sil = false;
  n_vowel = false;
  nsyl = 4;
  nsyl_stress = 1;
  rc = 0;
  nnbad_dur = false;
  nnsyl = 0;
  lc = 1;
  pbad_dur = false;
  psyl = 3;
  wqrd = 7;
  nwqrd = 7;
  nnwqrd = 0;
  pwqrd = 7;
  sylpos = 1;
  wqrdpos = 3;
  pbreak = some 2;
  pos = some 0;
  punc = some 0;
  npos = some 0;
  npunc = some 0;
}

abbrev with_b : PhoneHash
with_b = record { numbers = ("b", 1) ∷ []; phone_count = 1 }

flatpack-seg_b :
    (h : PhoneHash)
    → (h ≡ empty_hash) ⊎ (h ≡ with_b)
    → flatpack places contents number_after small_sets seg_b h ≡ ok (with_b, packed_b)
unfolding flatpack pack ask get_bad_f0 ph_has ph_is_silence simple_phone simple_punc simple_pos
    place simple_id pbreak_of
flatpack-seg_b h (inl e) = rw e refl
flatpack-seg_b h (inr e) = rw e refl

flatpack-seg_a :
    flatpack places contents number_after small_sets seg_a with_b ≡ ok (with_b, packed_a)
unfolding flatpack pack ask get_bad_f0 ph_has ph_is_silence simple_phone simple_punc simple_pos
    place simple_id pbreak_of
flatpack-seg_a = refl

number_after-positive : (t : String) → 1 ≤ number_after t
number_after-positive t = ground arith

ids :
    (get : Option Place → Option Place) (seg : Place) → HasIds places contents number_after get seg
unfolding simple_id
ids get seg = record {
  positive = λ a p near e. number_after-positive (id_text p);
  apart = λ a b p q near far e f. refl;
}

units : (seg : Place) → HasUnits places contents number_after seg
units seg = record { syllables = ids (tc_get_syl places) seg; words = ids (tc_get_word places) seg }

flatpack-agrees_example :
    (Costs.position_in_syllable_cost packed_b packed_a
      ≡ Plain.position_in_syllable_cost places seg_b seg_a)
    × (Costs.position_in_word_cost packed_b packed_a
        ≡ Plain.position_in_word_cost places seg_b seg_a)
    × (ok (Costs.partofspeech_cost packed_b packed_a)
        ≡ Plain.partofspeech_cost places contents seg_b seg_a)
    × (Costs.left_context_cost packed_b packed_a
        ≡ Plain.left_context_cost places contents seg_b seg_a)
    × (Costs.right_context_cost packed_b packed_a
        ≡ Plain.right_context_cost places contents seg_b seg_a)
    × (ok (Costs.out_of_lex_cost packed_b packed_a)
        ≡ Plain.out_of_lex_cost places contents seg_b seg_a)
flatpack-agrees_example =
    flatpack-agrees places contents number_after small_sets seg_b seg_a empty_hash with_b with_b
      packed_b packed_a empty_hash-IsNumbering (units seg_b) (units seg_a)
      (flatpack-seg_b empty_hash (inl refl)) flatpack-seg_a

flat_target_cost-same_example :
    Costs.flat_target_cost packed_a packed_a
    ≡ record { weighted = 10; weight_sum = 48; bad_halves = 10 * 0 }
flat_target_cost-same_example = flat_target_cost-same packed_a

get_bad_f0-bad_f0_cost_example :
    get_bad_f0 places contents number_after small_sets seg_b seg_a ≡ ok (1 / 2)
unfolding Plain.bad_f0_cost ph_has
get_bad_f0-bad_f0_cost_example =
    get_bad_f0-bad_f0_cost places contents number_after small_sets seg_b seg_a 1 refl refl refl refl
