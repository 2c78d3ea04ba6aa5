-- ===== src/TargetCost/Flat/Numbers.antt =====
-- The numbers that EST_FlatTargetCost.cc packs texts to: `simple_phone` with its hash, `simple_pos`,
-- `simple_punc`, and the numbers of a place in a syllable or a word.
use speech_synthesis_system.Base.{
  ℕ, suc, String, not, Option, none, some, List, [], ◌∷◌, str_eq, ◌==◌, if◌then◌else◌,
}
use speech_synthesis_system.TargetCost.Contexts.{one_of}

-- `phonehash` and `phone_count`.
pub record PhoneHash : Type 0 where
  pub numbers : List (String × ℕ)
  pub phone_count : ℕ

abbrev pub number_in : String → List (String × ℕ) → Option ℕ
number_in phone [] = none
number_in phone ((name, n) ∷ rest) = if str_eq phone name then some n else number_in phone rest

unfoldable pub simple_phone : String → PhoneHash → PhoneHash × ℕ
simple_phone phone h = elim (number_in phone h.numbers) [
  | some n ↦ (h, n)
  | none ↦ (
    record { numbers = (phone, suc h.phone_count) ∷ h.numbers; phone_count = suc h.phone_count },
    suc h.phone_count,
  )
]

unfoldable pub simple_punc : String → ℕ
simple_punc punc =
    if str_eq punc "NONE"
    then 0
    else if one_of punc ("," ∷ ":" ∷ ";" ∷ [])
    then 1
    else if one_of punc ("\"" ∷ "'" ∷ "-" ∷ [])
    then 1
    else if one_of punc ("(" ∷ ")" ∷ [])
    then 1
    else if str_eq punc "."
    then 2
    else if str_eq punc "?"
    then 3
    else 0

unfoldable pub simple_pos : String → ℕ
simple_pos s =
    if one_of s ("nn" ∷ "nnp" ∷ "nns" ∷ "nnps" ∷ "fw" ∷ "sym" ∷ "ls" ∷ [])
    then 1
    else if one_of s ("vbd" ∷ "vb" ∷ "vbn" ∷ "vbz" ∷ "vbp" ∷ "vbg" ∷ [])
    then 2
    else if one_of s ("jj" ∷ "jjr" ∷ "jjs" ∷ "1" ∷ "2" ∷ "rb" ∷ "rp" ∷ "rbr" ∷ "rbs" ∷ [])
    then 3
    else 0

-- `SYLPOS` and `WQRDPOS` from the numbers of this segment's unit, the next one's, the one's behind it and
-- the one's before.
unfoldable pub place : ℕ → ℕ → ℕ → ℕ → ℕ
place here next next_next prev =
    if not (here == next)
    then 1
    else if not (here == prev)
    then 2
    else if not (next == next_next)
    then 3
    else 0
