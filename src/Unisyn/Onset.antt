-- ===== src/Unisyn/Onset.antt =====
-- The consonants that may begin a syllable in syllabify.cc: `legal_c1`, `legal_c2`, `legal_c3` and
-- `make_onset`.
use speech_synthesis_system.Base.{
  ℕ, ◌-◌, String, Bool, true, false, ◌&&◌, ◌||◌, not, Option, none, some, List, [], ◌∷◌, str_eq,
  if◌then◌else◌,
}

-- A phone with the distinctive features that are looked at.
pub record Phone : Type 0 where
  pub name : String
  pub syllabic : String
  pub manner : String
  pub voicing : String
  pub stress_num : ℕ

unfoldable pub is_nucleus : Phone → Bool
is_nucleus x = str_eq x.syllabic "+"

unfoldable pub legal_c1 : Phone → Bool
legal_c1 x = str_eq x.syllabic "-"

unfoldable pub one_of : String → List String → Bool
one_of x [] = false
one_of x (y ∷ l) = if str_eq x y then true else one_of x l

-- `&&` binds tighter than `||`, so that the manner of `c1` is not asked about for `th` and `f`.
unfoldable pub glide_cluster : Phone → Phone → Bool
glide_cluster c1 x =
    str_eq c1.manner "approximant" && str_eq x.manner "stop"
    || (str_eq x.name "th" || str_eq x.name "f")

unfoldable pub barred : Phone → Phone → Bool
unfolding one_of
barred c1 x =
    str_eq x.name "y"
    || (str_eq c1.name "l" && one_of x.name ("t" ∷ "d" ∷ "th" ∷ [])
        || str_eq c1.name "w" && one_of x.name ("p" ∷ "b" ∷ "f" ∷ []))

unfoldable pub legal_c2 : Phone → Phone → Bool
unfolding is_nucleus one_of glide_cluster barred
legal_c2 c1 x =
    if is_nucleus x
    then false
    else if str_eq x.name "s"
        && one_of c1.name ("l" ∷ "w" ∷ "p" ∷ "t" ∷ "k" ∷ "m" ∷ "n" ∷ "r" ∷ "f" ∷ [])
    then true
    else if glide_cluster c1 x
    then not (barred c1 x)
    else str_eq c1.name "r" && str_eq x.name "v"

unfoldable pub legal_c3 : Phone → Phone → Phone → Bool
legal_c3 c1 c2 pos =
    if not (str_eq pos.name "s") then false else str_eq c2.manner "stop" && str_eq c2.voicing "-"

-- The onset, from the nucleus backwards, where one is made, and the place of the item that is
-- returned, `none` for 0.
pub record Onset : Type 0 where
  pub taken : Option (List Phone)
  pub returned : Option ℕ

abbrev pub onset : Option (List Phone) → Option ℕ → Onset
onset taken returned = record { taken = taken; returned = returned }

unfoldable pub third : ℕ → Phone → Phone → List Phone → Onset
unfolding legal_c3
third i c1 c2 [] = onset (some (c1 ∷ c2 ∷ [])) none
third i c1 c2 (c3 ∷ rest) =
    if legal_c3 c1 c2 c3
    then onset (some (c1 ∷ c2 ∷ c3 ∷ [])) (some (i - 3))
    else onset (some (c1 ∷ c2 ∷ [])) (some (i - 2))

unfoldable pub second : ℕ → Phone → List Phone → Onset
unfolding legal_c2 third
second i c1 [] = onset (some (c1 ∷ [])) none
second i c1 (c2 ∷ rest) =
    if legal_c2 c1 c2 then third i c1 c2 rest else onset (some (c1 ∷ [])) (some (i - 1))

-- `make_onset` at the nucleus at place `i`, the phones before it being `before`, last first. `initial`
-- is that the syllable is the first of the word.
unfoldable pub make_onset : Bool → ℕ → List Phone → Onset
unfolding is_nucleus legal_c1 second
make_onset initial i [] = onset none none
make_onset initial i (c1 ∷ rest) =
    if initial
    then onset (some (c1 ∷ rest)) none
    else if is_nucleus c1
    then onset none (some i)
    else if legal_c1 c1
    then second i c1 rest
    else onset (some []) (some i)
