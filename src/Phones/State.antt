-- ===== src/Phones/State.antt =====
-- The defined phone sets and the current one, with the functions of Phone.cc that read and change them.
-- A `PhoneSet *` is a place in the list of the sets that have been built, so that the list of names and
-- the current set share what they point at.
use speech_synthesis_system.Base.{
  ℕ, String, Option, none, some, Outcome, ok, err, ◌>>=◌, List, [], ◌∷◌, ◌++◌, length, get_elem?,
  set, str_eq, if◌then◌else◌,
}
use speech_synthesis_system.Phones.Set.{
  Symbols, PhoneError, not_defined, not_selected, not_a_member, Phone, PhoneSet, member, assoc_str,
  find_matched_phone, build_phoneset,
}

pub record PhoneSets : Type 0 where
  pub built : List PhoneSet
  pub set_list : List (String × ℕ)
  pub current : Option ℕ

abbrev pub no_sets : PhoneSets
no_sets = record { built = []; set_list = []; current = none }

unfoldable pub set_at : PhoneSets → ℕ → Outcome PhoneError PhoneSet
set_at s i = elim (get_elem? s.built i) [ none ↦ err not_defined | some ps ↦ ok ps ]

-- `setcar(cdr(lpair), siod(ps))` at the first pair of that name
unfoldable pub replace_set : String → ℕ → List (String × ℕ) → List (String × ℕ)
replace_set name i [] = []
replace_set name i ((k, old) ∷ l) =
    if str_eq name k then (k, i) ∷ l else (k, old) ∷ replace_set name i l

unfoldable pub ps_add_def : String → ℕ → PhoneSets → PhoneSets
unfolding assoc_str replace_set
ps_add_def name i s = elim (assoc_str name s.set_list) [
  | none ↦ record s { set_list = (name, i) ∷ s.set_list }
  | some old ↦ record s { set_list = replace_set name i s.set_list }
]

-- A new object for the set, its name, and the choice of it as the current one.
unfoldable pub add_set : PhoneSet → PhoneSets → PhoneSets
unfolding ps_add_def
add_set ps s =
    let i = length s.built in
    record (ps_add_def ps.psetname i (record s { built = s.built ++ ps ∷ [] })) { current = some i }

unfoldable pub make_phoneset :
    String
    → List (String × Symbols)
    → List (String × Symbols)
    → PhoneSets
    → Outcome PhoneError PhoneSets
unfolding build_phoneset add_set
make_phoneset name features phones s = do
  ps ← build_phoneset name features phones
  ok (add_set ps s)

-- `check_phoneset`, with the place of the current set.
unfoldable pub current_place : PhoneSets → Outcome PhoneError ℕ
current_place s = elim s.current [ none ↦ err not_selected | some i ↦ ok i ]

unfoldable pub current_phoneset : PhoneSets → Outcome PhoneError PhoneSet
unfolding current_place set_at
current_phoneset s = do i ← current_place s; set_at s i

unfoldable pub lisp_set_silence : Symbols → PhoneSets → Outcome PhoneError PhoneSets
unfolding current_place set_at
lisp_set_silence sils s = do
  i ← current_place s
  ps ← set_at s i
  ok (record s { built = set s.built i (record ps { silences = sils }) })

unfoldable pub place_of : String → PhoneSets → Outcome PhoneError ℕ
unfolding assoc_str
place_of name s = elim (assoc_str name s.set_list) [ none ↦ err not_defined | some i ↦ ok i ]

-- `phoneset_name_to_set` and `find_phoneset`
unfoldable pub find_phoneset : String → PhoneSets → Outcome PhoneError PhoneSet
unfolding place_of set_at
find_phoneset name s = do i ← place_of name s; set_at s i

unfoldable pub lisp_select_phoneset : String → PhoneSets → Outcome PhoneError PhoneSets
unfolding place_of
lisp_select_phoneset name s = do i ← place_of name s; ok (record s { current = some i })

-- The names, last first.
unfoldable pub l_phoneset_list : List (String × ℕ) → Symbols → Symbols
l_phoneset_list [] phonesets = phonesets
l_phoneset_list ((k, i) ∷ l) phonesets = l_phoneset_list l (k ∷ phonesets)

unfoldable pub or_not_a_member : Option Phone → Outcome PhoneError Phone
or_not_a_member none = err not_a_member
or_not_a_member (some p) = ok p

unfoldable pub map_phone : String → String → String → PhoneSets → Outcome PhoneError String
unfolding find_phoneset or_not_a_member member find_matched_phone
map_phone ph from_name to_name s = do
  from_set ← find_phoneset from_name s
  to_set ← find_phoneset to_name s
  foreign ← or_not_a_member (member from_set ph)
  to_phone ← find_matched_phone to_set foreign
  ok to_phone.name
