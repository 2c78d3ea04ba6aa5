-- ===== src/Phones/Tests.antt =====
-- Runs of the phone sets, and the theorems at concrete sets.
use speech_synthesis_system.Base.{String, ◌≡◌, refl, some, ok, err, List, [], ◌∷◌}
use speech_synthesis_system.Phones.Set.{
  Symbols, Phone, PhoneSet, member, build_phoneset, cannot_map, invalid_value,
}
use speech_synthesis_system.Phones.State.{
  PhoneSets, no_sets, add_set, make_phoneset, find_phoneset, lisp_select_phoneset, map_phone,
}
use speech_synthesis_system.Phones.Legal.{IsWellFormed, build_phoneset-IsWellFormed}
use speech_synthesis_system.Phones.Sharing.{IsSound}
use speech_synthesis_system.Phones.Reached.{Reached, start, make, select, Reached-IsSound}
use speech_synthesis_system.Phones.Mapping.{IsMapped, map_phone-IsMapped}

abbrev toy_features : List (String × Symbols)
toy_features =
    ("vc", "+" ∷ "-" ∷ []) ∷ ("ctype", "s" ∷ "n" ∷ "0" ∷ []) ∷ ("cvox", "+" ∷ "-" ∷ "0" ∷ []) ∷ []

abbrev toy_phones : List (String × Symbols)
toy_phones =
    ("a", "+" ∷ "0" ∷ "0" ∷ []) ∷ ("n", "-" ∷ "n" ∷ "+" ∷ []) ∷ ("t", "-" ∷ "s" ∷ "-" ∷ []) ∷ []

abbrev phone_of : String → String → String → String → Phone
phone_of name vc ctype cvox = record {
  name = name;
  features = ("vc", vc) ∷ ("ctype", ctype) ∷ ("cvox", cvox) ∷ [];
}

abbrev toy_set : PhoneSet
toy_set = record {
  psetname = "toy";
  silences = [];
  feature_defs =
      ("cvox", "+" ∷ "-" ∷ "0" ∷ [])
      ∷ ("ctype", "s" ∷ "n" ∷ "0" ∷ [])
      ∷ ("vc", "+" ∷ "-" ∷ [])
      ∷ [];
  phones =
      ("t", phone_of "t" "-" "s" "-")
      ∷ ("n", phone_of "n" "-" "n" "+")
      ∷ ("a", phone_of "a" "+" "0" "0")
      ∷ [];
}

toy_built : build_phoneset "toy" toy_features toy_phones ≡ ok toy_set
unfolding build_phoneset
toy_built = refl

-- A value that the feature does not have.
wrong_value :
    build_phoneset "toy" toy_features (("a", "+" ∷ "x" ∷ "0" ∷ []) ∷ []) ≡ err invalid_value
unfolding build_phoneset
wrong_value = refl

build_phoneset-IsWellFormed_example : IsWellFormed toy_set
unfolding build_phoneset
build_phoneset-IsWellFormed_example = build_phoneset-IsWellFormed "toy" toy_features toy_phones

-- A second set with the same phones under other names.
abbrev other_phones : List (String × Symbols)
other_phones = ("A", "+" ∷ "0" ∷ "0" ∷ []) ∷ ("N", "-" ∷ "n" ∷ "+" ∷ []) ∷ []

abbrev other_set : PhoneSet
other_set = record {
  psetname = "other";
  silences = [];
  feature_defs = toy_set.feature_defs;
  phones = ("N", phone_of "N" "-" "n" "+") ∷ ("A", phone_of "A" "+" "0" "0") ∷ [];
}

abbrev two_sets : PhoneSets
two_sets = record {
  built = toy_set ∷ other_set ∷ [];
  set_list = ("other", 1) ∷ ("toy", 0) ∷ [];
  current = some 1;
}

toy_made : Reached (add_set toy_set no_sets)
unfolding make_phoneset build_phoneset
toy_made = make "toy" toy_features toy_phones start refl

two_made : Reached two_sets
unfolding make_phoneset build_phoneset add_set
two_made = make "other" toy_features other_phones toy_made refl

-- After a return to the first set.
abbrev back_to_toy : PhoneSets
back_to_toy = record two_sets { current = some 0 }

toy_selected : Reached back_to_toy
unfolding lisp_select_phoneset
toy_selected = select "toy" two_made refl

Reached-IsSound_example : IsSound back_to_toy
Reached-IsSound_example = Reached-IsSound toy_selected

map_phone-IsMapped_example :
    IsMapped (phone_of "a" "+" "0" "0") other_set (map_phone "a" "toy" "other" two_sets)
unfolding find_phoneset member build_phoneset
map_phone-IsMapped_example =
    map_phone-IsMapped "a" "toy" "other" two_sets toy_set other_set (phone_of "a" "+" "0" "0") refl
      refl refl (build_phoneset-IsWellFormed "other" toy_features other_phones)

mapped : map_phone "a" "toy" "other" two_sets ≡ ok "A"
unfolding map_phone
mapped = refl

not_mapped : map_phone "t" "toy" "other" two_sets ≡ err cannot_map
unfolding map_phone
not_mapped = refl
