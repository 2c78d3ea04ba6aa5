-- ===== src/Phones/Set.antt =====
-- The classes `Phone` and `PhoneSet` of Phone.cc and Phone.h, and the building of a set by
-- `make_phoneset`.
use speech_synthesis_system.Base.{
  ℕ, ◌+◌, String, Bool, true, false, not, Option, none, some, Outcome, ok, err, ◌>>=◌, List, [],
  ◌∷◌, length, str_eq, ◌==◌, if◌then◌else◌,
}

abbrev pub Symbols : Type 0
Symbols = List String

-- The messages before `festival_error`.
pub data PhoneError : Type 0 where
  wrong_number_of_features invalid_value multiply_defined : PhoneError
  not_defined not_selected not_a_member no_such_number cannot_map : PhoneError
  not_a_feature_name no_such_feature : PhoneError

pub record Phone : Type 0 where
  pub name : String
  pub features : List (String × String)

-- `features.val_def(key, "")`
unfoldable pub value_of : String → List (String × String) → String
value_of key [] = ""
value_of key ((k, v) ∷ l) = if str_eq key k then v else value_of key l

unfoldable pub val : Phone → String → String
unfolding value_of
val p key = value_of key p.features

-- `features.add_item(f, v)`: a known key gets the new value, a new one goes to the end.
unfoldable pub add_item : String → String → List (String × String) → List (String × String)
add_item f v [] = (f, v) ∷ []
add_item f v ((k, w) ∷ l) = if str_eq f k then (k, v) ∷ l else (k, w) ∷ add_item f v l

unfoldable pub add_feat : Phone → String → String → Phone
unfolding add_item
add_feat p f v = record p { features = add_item f v p.features }

-- Every feature of the phone has the same value in `foreign`.
unfoldable pub agree : List (String × String) → Phone → Bool
unfolding val
agree [] foreign = true
agree ((k, v) ∷ l) foreign = if str_eq v (val foreign k) then agree l foreign else false

unfoldable pub match_features : Phone → Phone → Bool
unfolding agree
match_features p foreign = agree p.features foreign

pub record PhoneSet : Type 0 where
  pub psetname : String
  pub silences : Symbols
  pub feature_defs : List (String × Symbols)
  pub phones : List (String × Phone)

abbrev pub empty_set : String → PhoneSet
empty_set name = record { psetname = name; silences = []; feature_defs = []; phones = [] }

-- `siod_assoc_str`, with what stands in the second place of the pair.
unfoldable pub assoc_str {ℓ} : {A : Type ℓ} → String → List (String × A) → Option A
assoc_str key [] = none
assoc_str key ((k, v) ∷ l) = if str_eq key k then some v else assoc_str key l

unfoldable pub member_str : String → Symbols → Bool
member_str s [] = false
member_str s (x ∷ xs) = if str_eq s x then true else member_str s xs

-- `CAR(cdr(lpair)) = vals` at the first pair of that name
unfoldable pub replace_vals : String → Symbols → List (String × Symbols) → List (String × Symbols)
replace_vals name vals [] = []
replace_vals name vals ((k, old) ∷ l) =
    if str_eq name k then (k, vals) ∷ l else (k, old) ∷ replace_vals name vals l

unfoldable pub set_feature : String → Symbols → PhoneSet → PhoneSet
unfolding assoc_str replace_vals
set_feature name vals ps = elim (assoc_str name ps.feature_defs) [
  | none ↦ record ps { feature_defs = (name, vals) ∷ ps.feature_defs }
  | some old ↦ record ps { feature_defs = replace_vals name vals ps.feature_defs }
]

-- Whether the value is one of those defined for the feature; `car(cdr(NIL))` is NIL.
unfoldable pub feat_val : PhoneSet → String → String → Bool
unfolding assoc_str member_str
feat_val ps feat v = elim (assoc_str feat ps.feature_defs) [
  | none ↦ false
  | some vals ↦ member_str v vals
]

unfoldable pub present : PhoneSet → String → Bool
unfolding assoc_str
present ps ph = elim (assoc_str ph ps.phones) [ none ↦ false | some p ↦ true ]

unfoldable pub is_silence : PhoneSet → String → Bool
unfolding member_str
is_silence ps ph = member_str ph ps.silences

unfoldable pub member : PhoneSet → String → Option Phone
unfolding assoc_str
member ps ph = assoc_str ph ps.phones

-- The new set, or `none` for FALSE.
unfoldable pub add_phone : Phone → PhoneSet → Option PhoneSet
unfolding assoc_str
add_phone p ps = elim (assoc_str p.name ps.phones) [
  | none ↦ some (record ps { phones = (p.name, p) ∷ ps.phones })
  | some old ↦ none
]

-- `phnum` of a name, counted from `i`.
unfoldable pub number_from : ℕ → String → List (String × Phone) → Outcome PhoneError ℕ
number_from i ph [] = err not_a_member
number_from i ph ((k, p) ∷ l) =
    let rest = number_from (i + 1) ph l in if str_eq ph k then ok i else rest

unfoldable pub phnum : PhoneSet → String → Outcome PhoneError ℕ
unfolding number_from
phnum ps ph = number_from 0 ph ps.phones

-- `phnum` of a number, counted from `i`.
unfoldable pub name_from : ℕ → ℕ → List (String × Phone) → Outcome PhoneError String
name_from i n [] = err no_such_number
name_from i n ((k, p) ∷ l) = let rest = name_from (i + 1) n l in if i == n then ok k else rest

unfoldable pub phname : PhoneSet → ℕ → Outcome PhoneError String
unfolding name_from
phname ps n = name_from 0 n ps.phones

unfoldable pub first_matching : Phone → List (String × Phone) → Outcome PhoneError Phone
unfolding match_features
first_matching foreign [] = err cannot_map
first_matching foreign ((k, p) ∷ l) =
    if match_features p foreign then ok p else first_matching foreign l

unfoldable pub find_matched_phone : PhoneSet → Phone → Outcome PhoneError Phone
unfolding first_matching
find_matched_phone ps foreign = first_matching foreign ps.phones

unfoldable pub set_features : List (String × Symbols) → PhoneSet → PhoneSet
unfolding set_feature
set_features [] ps = ps
set_features ((name, vals) ∷ fs) ps = set_features fs (set_feature name vals ps)

-- The inner loop of `make_phoneset`; the numbers of features and values were compared before it.
unfoldable pub set_values :
    PhoneSet → List (String × Symbols) → Symbols → Phone → Outcome PhoneError Phone
unfolding feat_val add_feat
set_values ps [] pv p = ok p
set_values ps ((feat, _) ∷ fs) [] p = err wrong_number_of_features
set_values ps ((feat, _) ∷ fs) (v ∷ pv) p =
    let rest = set_values ps fs pv (add_feat p feat v) in
    if feat_val ps feat v then rest else err invalid_value

unfoldable pub or_multiply_defined : Option PhoneSet → Outcome PhoneError PhoneSet
or_multiply_defined none = err multiply_defined
or_multiply_defined (some ps) = ok ps

unfoldable pub define_phone :
    List (String × Symbols) → PhoneSet → String → Symbols → Outcome PhoneError PhoneSet
unfolding set_values or_multiply_defined add_phone
define_phone features ps name vals =
    if not (length vals == length features) then err wrong_number_of_features else do
      p ← set_values ps features vals (record { name = name; features = [] })
      or_multiply_defined (add_phone p ps)

unfoldable pub define_phones :
    List (String × Symbols) → List (String × Symbols) → PhoneSet → Outcome PhoneError PhoneSet
unfolding define_phone
define_phones features [] ps = ok ps
define_phones features ((name, vals) ∷ l) ps = do
  ps' ← define_phone features ps name vals
  define_phones features l ps'

-- The set that `make_phoneset` builds from its name, its features and its phones.
unfoldable pub build_phoneset :
    String → List (String × Symbols) → List (String × Symbols) → Outcome PhoneError PhoneSet
unfolding set_features define_phones
build_phoneset name features phones =
    define_phones features phones (set_features features (empty_set name))
