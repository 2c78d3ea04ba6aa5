-- ===== src/Phones/Classes.antt =====
-- The questions about a phone of the current set in Phone.cc: `ph_feat` and the classes that it gives.
use speech_synthesis_system.Base.{
  ℕ, String, Bool, true, false, not, ◌||◌, Option, none, some, Outcome, ok, err, ◌>>=◌, [], ◌∷◌,
  str_eq, if◌then◌else◌,
}
use speech_synthesis_system.Phones.Set.{
  PhoneError, not_a_feature_name, no_such_feature, Phone, val, is_silence, member,
}
use speech_synthesis_system.Phones.State.{PhoneSets, current_phoneset, or_not_a_member}

unfoldable pub ph_is_silence : String → PhoneSets → Outcome PhoneError Bool
unfolding current_phoneset is_silence
ph_is_silence ph s = do ps ← current_phoneset s; ok (is_silence ps ph)

-- The first silence, and `sil` beside a message where none is set.
unfoldable pub ph_silence : PhoneSets → Outcome PhoneError String
unfolding current_phoneset
ph_silence s = do ps ← current_phoneset s; ok (elim ps.silences [ [] ↦ "sil" | x ∷ xs ↦ x ])

unfoldable pub ph_feat : String → String → PhoneSets → Outcome PhoneError String
unfolding current_phoneset or_not_a_member member val
ph_feat ph feat s = do ps ← current_phoneset s; p ← or_not_a_member (member ps ph); ok (val p feat)

unfoldable pub ph_has : String → String → String → PhoneSets → Outcome PhoneError Bool
unfolding ph_feat
ph_has ph feat v s = do w ← ph_feat ph feat s; ok (str_eq w v)

abbrev pub ph_is_vowel : String → PhoneSets → Outcome PhoneError Bool
ph_is_vowel ph = ph_has ph "vc" "+"

-- `&&` asks about silence only where the first test holds.
unfoldable pub ph_is_consonant : String → PhoneSets → Outcome PhoneError Bool
unfolding ph_has ph_is_silence
ph_is_consonant ph s = do
  c ← ph_has ph "vc" "-" s
  elim c [ true ↦ (do q ← ph_is_silence ph s; ok (not q)) | false ↦ ok false ]

abbrev pub ph_is_liquid : String → PhoneSets → Outcome PhoneError Bool
ph_is_liquid ph = ph_has ph "ctype" "l"

abbrev pub ph_is_approximant : String → PhoneSets → Outcome PhoneError Bool
ph_is_approximant ph = ph_has ph "ctype" "r"

abbrev pub ph_is_stop : String → PhoneSets → Outcome PhoneError Bool
ph_is_stop ph = ph_has ph "ctype" "s"

abbrev pub ph_is_fricative : String → PhoneSets → Outcome PhoneError Bool
ph_is_fricative ph = ph_has ph "ctype" "f"

abbrev pub ph_is_nasal : String → PhoneSets → Outcome PhoneError Bool
ph_is_nasal ph = ph_has ph "ctype" "n"

unfoldable pub ph_is_obstruent : String → PhoneSets → Outcome PhoneError Bool
unfolding ph_feat
ph_is_obstruent ph s = do
  v ← ph_feat ph "ctype" s
  ok (str_eq v "s" || (str_eq v "f" || str_eq v "a"))

unfoldable pub ph_is_sonorant : String → PhoneSets → Outcome PhoneError Bool
unfolding ph_is_obstruent
ph_is_sonorant ph s = do b ← ph_is_obstruent ph s; ok (not b)

abbrev pub ph_is_voiced : String → PhoneSets → Outcome PhoneError Bool
ph_is_voiced ph = ph_has ph "cvox" "+"

abbrev pub ph_is_syllabic : String → PhoneSets → Outcome PhoneError Bool
ph_is_syllabic ph = ph_has ph "vc" "+"

unfoldable pub sonority_of : Option Phone → ℕ
unfolding val
sonority_of none = 1
sonority_of (some p) =
    if str_eq (val p "vc") "+"
    then 5
    else if str_eq (val p "ctype") "l"
    then 4
    else if str_eq (val p "ctype") "n"
    then 3
    else if str_eq (val p "cvox") "+"
    then 2
    else 1

unfoldable pub ph_sonority : String → PhoneSets → Outcome PhoneError ℕ
unfolding current_phoneset member sonority_of
ph_sonority ph s = do ps ← current_phoneset s; ok (sonority_of (member ps ph))

unfoldable pub feature_of : String → String → PhoneSets → Outcome PhoneError String
unfolding ph_feat
feature_of ph fname s = do v ← ph_feat ph fname s; if str_eq v "" then err no_such_feature else ok v

-- The feature function `ph_*` of a segment. `after_ph` is `name.after("ph_")` of the string library,
-- where the name begins so.
unfoldable pub ff_ph_feature :
    (String → Option String) → String → String → PhoneSets → Outcome PhoneError String
unfolding feature_of
ff_ph_feature after_ph ph name s = elim (after_ph name) [
  | none ↦ err not_a_feature_name
  | some fname ↦ feature_of ph fname s
]
