-- ===== src/Phones/Numbers.antt =====
-- `phnum` of Phone.cc in its two directions: from a name to its number and back.
use speech_synthesis_system.Base.{
  ℕ, ◌+◌, ◌≤◌, String, ◌≡◌, ◌≢◌, ◌↔◌, none, ok, List, [], ◌∷◌, eq_iff, arith,
}
use speech_synthesis_system.Phones.Set.{
  Phone, PhoneSet, assoc_str, number_from, phnum, name_from, phname,
}

-- No name stands twice.
abbrev pub IsDistinct : List (String × Phone) → Type 0
IsDistinct [] = Unit
IsDistinct ((k, p) ∷ l) = (assoc_str k l ≡ none) × IsDistinct l

name_from-number_from :
    (i n : ℕ) (ph : String) (l : List (String × Phone))
    → number_from i ph l ≡ ok n
    → (i ≤ n) × (name_from i n l ≡ ok ph)
unfolding number_from name_from
name_from-number_from i n ph [] h = cc
name_from-number_from i n ph ((k, p) ∷ l) h =
    ground (arith, eq_iff ph k, name_from-number_from (i + 1) n ph l)

known_of_name :
    (i n : ℕ) (ph : String) (l : List (String × Phone))
    → name_from i n l ≡ ok ph
    → (i ≤ n) × (assoc_str ph l ≢ none)
unfolding name_from assoc_str
known_of_name i n ph [] h = cc
known_of_name i n ph ((k, p) ∷ l) h = ground (arith, eq_iff ph k, known_of_name (i + 1) n ph l)

number_from-name_from :
    (i n : ℕ) (ph : String) (l : List (String × Phone))
    → IsDistinct l
    → name_from i n l ≡ ok ph
    → number_from i ph l ≡ ok n
unfolding number_from name_from
number_from-name_from i n ph [] d h = cc
number_from-name_from i n ph ((k, p) ∷ l) d h =
    ground (arith, eq_iff ph k, known_of_name (i + 1) n ph l, number_from-name_from (i + 1) n ph l)

-- Where no name stands twice, a number has a name just when the name has that number.
pub phnum-phname :
    (ps : PhoneSet) (n : ℕ) (ph : String)
    → IsDistinct ps.phones
    → (phname ps n ≡ ok ph) ↔ (phnum ps ph ≡ ok n)
unfolding phnum phname
phnum-phname ps n ph d =
    (number_from-name_from 0 n ph ps.phones d, (λ h. (name_from-number_from 0 n ph ps.phones h).1))
