-- ===== src/TargetCost/Contexts.antt =====
-- What EST_TargetCost.cc asks of a segment: its syllable and word, its place in them, its features.
use speech_synthesis_system.Base.{
  String, Bool, true, false, ◌||◌, not, Option, none, some, Outcome, ok, err, ◌>>=◌, List, [], ◌∷◌,
  str_eq, if◌then◌else◌,
}
use speech_synthesis_system.Phones.Set.{PhoneError}
use speech_synthesis_system.Phones.State.{PhoneSets}
use speech_synthesis_system.Phones.Classes.{ph_is_vowel, ph_is_silence}
use speech_synthesis_system.Builtin.Items.{Items, of_item}
use speech_synthesis_system.Builtin.Counts.{is_same_item}

-- An error of the phone set, a call on no item, or a feature that an item does not have.
pub data CostError : Type 0 where
  phone_error : PhoneError → CostError
  null_item missing_feature : CostError

abbrev pub of_phone {ℓ} : {A : Type ℓ} → Outcome PhoneError A → Outcome CostError A
of_phone (ok a) = ok a
of_phone (err e) = err (phone_error e)

-- The text of a feature of an item, if it has it, and whether the last number of its `midcoef`,
-- where it has one, is -1.
pub record Contents (u : Items) : Type 0 where
  pub feature : String → u.Item → Option String
  pub is_unvoiced : u.Item → Bool

abbrev pub text_or : String → Option String → String
text_or default none = default
text_or default (some t) = t

pub data Tcpos : Type 0 where
  tcpos_medial tcpos_inter tcpos_initial tcpos_final : Tcpos

abbrev pub is_tcpos : Tcpos → Tcpos → Bool
is_tcpos tcpos_medial tcpos_medial = true
is_tcpos tcpos_inter tcpos_inter = true
is_tcpos tcpos_initial tcpos_initial = true
is_tcpos tcpos_final tcpos_final = true
is_tcpos a b = false

abbrev pub one_of : String → List String → Bool
one_of s [] = false
one_of s (t ∷ l) = str_eq s t || one_of s l

unfoldable pub simple_pos : String → String
simple_pos s =
    if one_of s ("nn" ∷ "nnp" ∷ "nns" ∷ "nnps" ∷ "fw" ∷ "sym" ∷ "ls" ∷ [])
    then "n"
    else if one_of s ("vbd" ∷ "vb" ∷ "vbn" ∷ "vbz" ∷ "vbp" ∷ "vbg" ∷ [])
    then "v"
    else if one_of s ("jj" ∷ "jjr" ∷ "jjs" ∷ "1" ∷ "2" ∷ "rb" ∷ "rp" ∷ "rbr" ∷ "rbs" ∷ [])
    then "other"
    else "func"

module _ (u : Items) where
  abbrev pub parent_in : Option u.Item → Option u.Item
  parent_in p = of_item u.parent (of_item (u.as_relation "SylStructure") p)

  abbrev pub tc_get_syl : Option u.Item → Option u.Item
  tc_get_syl seg = parent_in seg

  abbrev pub tc_get_word : Option u.Item → Option u.Item
  tc_get_word seg = parent_in (tc_get_syl seg)

  abbrev pub next_of : Option u.Item → Option u.Item
  next_of p = of_item u.inext p

  abbrev pub previous_of : Option u.Item → Option u.Item
  previous_of p = of_item u.iprev p

  -- The place of a diphone in the syllable or word that `get` gives for a segment.
  unfoldable pub tcpos : (Option u.Item → Option u.Item) → u.Item → Tcpos
  tcpos get seg =
      let here = get (some seg) in
      let next = get (next_of (some seg)) in
      let next_next = get (next_of (next_of (some seg))) in
      let prev = get (previous_of (some seg)) in
      if not (is_same_item u here next)
      then tcpos_inter
      else if not (is_same_item u here prev)
      then tcpos_initial
      else if not (is_same_item u next next_next)
      then tcpos_final
      else tcpos_medial

  module _ (c : Contents u) (s : PhoneSets) where
    abbrev pub name_of : u.Item → String
    name_of p = text_or "" (c.feature "name" p)

    -- `ph_is_vowel(name) && !ph_is_silence(name)`
    unfoldable pub is_spoken_vowel : Option u.Item → Outcome CostError Bool
    is_spoken_vowel none = err null_item
    is_spoken_vowel (some p) =
        let spoken = (do q ← of_phone (ph_is_silence (name_of p) s); ok (not q)) in
        do v ← of_phone (ph_is_vowel (name_of p) s); if v then spoken else ok false
