-- ===== src/Phones/Sonority.antt =====
-- `ph_sonority` of Phone.cc beside the classes of phones.
use speech_synthesis_system.Base.{
  ℕ, ◌≤◌, String, ◌≡◌, ◌↔◌, refl, Bool, true, false, not, ◌&&◌, some, ok, str_eq, eq_iff, arith,
  Bool-cases, inl, inr,
}
use speech_synthesis_system.Phones.Set.{Phone, val, PhoneSet, member, is_silence}
use speech_synthesis_system.Phones.State.{PhoneSets, current_phoneset, or_not_a_member}
use speech_synthesis_system.Phones.Classes.{
  ph_has, ph_feat, ph_is_vowel, ph_is_consonant, ph_is_silence, ph_sonority, sonority_of,
}

sonority_of-member :
    (p : Phone)
    → (1 ≤ sonority_of (some p))
      × ((sonority_of (some p) ≤ 5)
          × ((str_eq (val p "vc") "+" ≡ true) ↔ (sonority_of (some p) ≡ 5)))
unfolding sonority_of
sonority_of-member p = ground arith

-- The answers about one phone: whether it is a vowel, whether a consonant, and its sonority.
abbrev pub IsGraded : Bool → Bool → ℕ → Type 0
IsGraded v c n = (1 ≤ n) × (n ≤ 5) × ((v ≡ true) ↔ (n ≡ 5)) × (v && c ≡ false)

vowel_not_consonant : (t : String) (b : Bool) → str_eq t "+" && (str_eq t "-" && b) ≡ false
vowel_not_consonant t b = elim (Bool-cases (str_eq t "+")) [
  | inl e ↦ rw ((eq_iff t "+").0 e) refl
  | inr e ↦ rw e refl
]

consonant_answer :
    (ph : String) (s : PhoneSets) (ps : PhoneSet) (p : Phone)
    → current_phoneset s ≡ ok ps
    → member ps ph ≡ some p
    → ph_is_consonant ph s ≡ ok (str_eq (val p "vc") "-" && not (is_silence ps ph))
unfolding ph_is_consonant ph_has ph_feat ph_is_silence or_not_a_member
consonant_answer ph s ps p h m = elim (Bool-cases (str_eq (val p "vc") "-")) [
  | inl e ↦ rw (h, m, e, h) refl
  | inr e ↦ rw (h, m, e) refl
]

-- A member of the current set is answered by all three questions, never both a vowel and a consonant, and
-- its sonority is from 1 to 5, and 5 for the vowels alone.
pub ph_sonority-IsGraded :
    (ph : String) (s : PhoneSets) (ps : PhoneSet) (p : Phone)
    → current_phoneset s ≡ ok ps
    → member ps ph ≡ some p
    → (v : Bool) × (c : Bool) × (n : ℕ) × (ph_is_vowel ph s ≡ ok v)
      × (ph_is_consonant ph s ≡ ok c)
      × (ph_sonority ph s ≡ ok n)
      × IsGraded v c n
unfolding ph_is_consonant ph_has ph_feat ph_is_silence ph_sonority or_not_a_member
ph_sonority-IsGraded ph s ps p h m =
    let (low, (high, iff)) = sonority_of-member p in
    (
      str_eq (val p "vc") "+",
      str_eq (val p "vc") "-" && not (is_silence ps ph),
      sonority_of (some p),
      rw (h, m) refl,
      consonant_answer ph s ps p h m,
      rw (h, m) refl,
      (low, high, iff, vowel_not_consonant (val p "vc") _),
    )
