-- ===== src/TargetCost/Flat/Hash.antt =====
-- The hash of `simple_phone` in EST_FlatTargetCost.cc: the numbers that it holds before and after a call.
use speech_synthesis_system.Base.{
  ℕ, suc, ◌≤◌, String, ◌≡◌, ap, sym, ◌∙◌, Bool, none, some, List, ◌∷◌, str_eq, eq_iff, eq_refl,
  if◌then◌else◌, arith, Bool-cases, Option-cases, inl, inr, ◌⊎◌,
}
use speech_synthesis_system.TargetCost.Flat.Numbers.{PhoneHash, number_in, simple_phone}

-- Every number is from 1 to the count, and no two phones have the same.
pub record IsNumbering (h : PhoneHash) : Type 0 where
  pub counted :
      (a : String) (n : ℕ) → number_in a h.numbers ≡ some n → (1 ≤ n) × (n ≤ h.phone_count)
  pub single :
      (a b : String) (n : ℕ)
      → number_in a h.numbers ≡ some n
      → number_in b h.numbers ≡ some n
      → a ≡ b

-- What has a number keeps it.
abbrev pub IsKept : PhoneHash → PhoneHash → Type 0
IsKept h later =
    (a : String) (n : ℕ) → number_in a h.numbers ≡ some n → number_in a later.numbers ≡ some n

abbrev with_phone : String → PhoneHash → PhoneHash
with_phone phone h = record {
  numbers = (phone, suc h.phone_count) ∷ h.numbers;
  phone_count = suc h.phone_count;
}

number_in-cases :
    (phone a : String) (m n : ℕ) (l : List (String × ℕ))
    → number_in a ((phone, m) ∷ l) ≡ some n
    → ((a ≡ phone) × (n ≡ m)) ⊎ (number_in a l ≡ some n)
number_in-cases phone a m n l e = elim (Bool-cases (str_eq a phone)) [
  | inl same ↦
      let found : some m ≡ some n =
        sym (ap (λ (b : Bool). if b then some m else number_in a l) same) ∙ e in
      inl ((eq_iff a phone).0 same, cc)
  | inr other ↦ inr (sym (ap (λ (b : Bool). if b then some m else number_in a l) other) ∙ e)
]

number_in-first :
    (phone : String) (m : ℕ) (l : List (String × ℕ)) → number_in phone ((phone, m) ∷ l) ≡ some m
number_in-first phone m l =
    ap (λ (b : Bool). if b then some m else number_in phone l) (eq_refl phone)

with_phone-IsNumbering :
    (phone : String) (h : PhoneHash) → IsNumbering h → IsNumbering (with_phone phone h)
with_phone-IsNumbering phone h keeps = record {
  counted = λ a n e. elim (number_in-cases phone a (suc h.phone_count) n h.numbers e) [
    | inl (same, is_last) ↦ (omega (arith, is_last), omega (arith, is_last))
    | inr old ↦ let bounds = keeps.counted a n old in (bounds.0, omega (arith, bounds.1))
  ];
  single = λ a b n e f. elim (number_in-cases phone a (suc h.phone_count) n h.numbers e) [
    | inl (a_is, n_is) ↦ elim (number_in-cases phone b (suc h.phone_count) n h.numbers f) [
      | inl (b_is, n_is) ↦ a_is ∙ sym b_is
      | inr old ↦ absurd (omega (arith, n_is, (keeps.counted b n old).1))
    ]
    | inr old_a ↦ elim (number_in-cases phone b (suc h.phone_count) n h.numbers f) [
      | inl (b_is, n_is) ↦ absurd (omega (arith, n_is, (keeps.counted a n old_a).1))
      | inr old_b ↦ keeps.single a b n old_a old_b
    ]
  ];
}

with_phone-IsKept :
    (phone : String) (h : PhoneHash)
    → number_in phone h.numbers ≡ none
    → IsKept h (with_phone phone h)
with_phone-IsKept phone h new a n e = elim (Bool-cases (str_eq a phone)) [
  | inl same ↦ let is_phone = (eq_iff a phone).0 same in cc
  | inr other ↦
      ap (λ (b : Bool). if b then some (suc h.phone_count) else number_in a h.numbers) other ∙ e
]

-- `simple_phone` returns the number that the phone has afterwards; no phone that had a number gets another
-- one, and no two phones get the same.
pub simple_phone_lem :
    (phone : String) (h : PhoneHash)
    → IsNumbering h
    → let (later, n) = simple_phone phone h in
      IsNumbering later × IsKept h later × (number_in phone later.numbers ≡ some n)
unfolding simple_phone
simple_phone_lem phone h keeps = elim (Option-cases (number_in phone h.numbers)) [
  | inl new ↦
      rw (new, simple_phone)
        (
          with_phone-IsNumbering phone h keeps,
          with_phone-IsKept phone h new,
          number_in-first phone (suc h.phone_count) h.numbers,
        )
  | inr (n, known) ↦ rw (known, simple_phone) (keeps, λ a m e. e, known)
]
