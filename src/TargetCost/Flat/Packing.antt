-- ===== src/TargetCost/Flat/Packing.antt =====
-- `EST_FlatTargetCost::flatpack`: what the flat target cost asks of a segment, packed once.
use speech_synthesis_system.Base.{
  ℕ, ◌+◌, ◌/◌, String, Bool, true, false, ◌&&◌, Option, none, some, Outcome, ok, err, ◌>>=◌, str_eq,
  if◌then◌else◌,
}
use speech_synthesis_system.Phones.State.{PhoneSets}
use speech_synthesis_system.Phones.Classes.{ph_is_vowel, ph_is_silence}
use speech_synthesis_system.Builtin.Items.{Items}
use speech_synthesis_system.TargetCost.Contexts.{
  CostError, null_item, missing_feature, of_phone, Contents, text_or, tc_get_syl, tc_get_word,
  next_of, previous_of, name_of,
}
use speech_synthesis_system.TargetCost.Costs.{is_present, is_sonorous, token_of}
use speech_synthesis_system.TargetCost.Flat.Numbers.{
  PhoneHash, simple_phone, simple_punc, simple_pos, place,
}

-- The vector of `tcdata_t`. A place that is only ever 0 or 1 is a truth value, and -1 is none.
pub record TcData : Type 0 where
  pub vowel : Bool
  pub sil : Bool
  pub bad_dur : Bool
  pub nbad_dur : Bool
  pub bad_ool : Bool
  pub nbad_ool : Bool
  pub bad_f0 : ℕ
  pub syl : ℕ
  pub syl_stress : ℕ
  pub n_sil : Bool
  pub n_vowel : Bool
  pub nsyl : ℕ
  pub nsyl_stress : ℕ
  pub rc : ℕ
  pub nnbad_dur : Bool
  pub nnsyl : ℕ
  pub lc : ℕ
  pub pbad_dur : Bool
  pub psyl : ℕ
  pub wqrd : ℕ
  pub nwqrd : ℕ
  pub nnwqrd : ℕ
  pub pwqrd : ℕ
  pub sylpos : ℕ
  pub wqrdpos : ℕ
  pub pbreak : Option ℕ
  pub pos : Option ℕ
  pub punc : Option ℕ
  pub npos : Option ℕ
  pub npunc : Option ℕ

-- What the packing asks the phone set and the tokens, in the order in which it asks.
pub record Asked : Type 0 where
  pub is_vowel : Bool
  pub is_silence : Bool
  pub f0_penalty : ℕ
  pub next_is_silence : Bool
  pub next_is_vowel : Bool
  pub punctuation : Option ℕ
  pub next_punctuation : Option ℕ

-- `after_underscore` is the number that EST reads from a text behind its first underscore.
module _ (u : Items) (c : Contents u) (after_underscore : String → ℕ) where
  unfoldable pub simple_id : u.Item → ℕ
  simple_id p = after_underscore (text_or "" (c.feature "id" p))

  abbrev pub id_of : Option u.Item → ℕ
  id_of none = 0
  id_of (some p) = simple_id p

  abbrev pub stress_of : Option u.Item → ℕ
  stress_of none = 0
  stress_of (some p) = u.stress p

  abbrev pub present_at : String → Option u.Item → Bool
  present_at f none = false
  present_at f (some p) = is_present u c f p

  unfoldable pub pbreak_of : Option u.Item → Option ℕ
  pbreak_of none = none
  pbreak_of (some word) =
      let pbreak = text_or "" (c.feature "pbreak" word) in
      if str_eq pbreak "NB" then some 0 else if str_eq pbreak "B" then some 1 else some 2

  abbrev pub pos_of : Option u.Item → Option ℕ
  pos_of none = none
  pos_of (some word) = some (simple_pos (text_or "" (c.feature "pos" word)))

  abbrev pub punc_in : Option u.Item → Outcome CostError (Option ℕ)
  punc_in none = err null_item
  punc_in (some token) = ok (some (simple_punc (text_or "NONE" (c.feature "punc" token))))

  abbrev pub punc_of : Option u.Item → Outcome CostError (Option ℕ)
  punc_of none = ok none
  punc_of (some word) = punc_in (token_of u c word)

  abbrev pub phone_at : Option u.Item → PhoneHash → PhoneHash × ℕ
  phone_at none h = (h, 0)
  phone_at (some p) h = simple_phone (text_or "" (c.feature "name" p)) h

  -- The part of the packing that cannot fail, for a segment with one behind it.
  unfoldable pub pack : u.Item → Asked → PhoneHash → PhoneHash × TcData
  unfolding place pbreak_of
  pack seg asked h =
      let syl_at = λ (p : Option u.Item). id_of (tc_get_syl u p) in
      let word_at = λ (p : Option u.Item). id_of (tc_get_word u p) in
      let next = next_of u (some seg) in
      let behind = next_of u next in
      let prev = previous_of u (some seg) in
      let (h1, right) = phone_at behind h in
      let (h2, left) = phone_at prev h1 in
      (
        h2,
        record {
          vowel = asked.is_vowel;
          sil = asked.is_silence;
          bad_dur = is_present u c "bad_dur" seg;
          nbad_dur = present_at "bad_dur" next;
          bad_ool = is_present u c "bad_lex" seg;
          nbad_ool = present_at "bad_lex" next;
          bad_f0 = asked.f0_penalty;
          syl = syl_at (some seg);
          syl_stress = stress_of (tc_get_syl u (some seg));
          n_sil = asked.next_is_silence;
          n_vowel = asked.next_is_vowel;
          nsyl = syl_at next;
          nsyl_stress = stress_of (tc_get_syl u next);
          rc = right;
          nnbad_dur = present_at "bad_dur" behind;
          nnsyl = syl_at behind;
          lc = left;
          pbad_dur = present_at "bad_dur" prev;
          psyl = syl_at prev;
          wqrd = word_at (some seg);
          nwqrd = word_at next;
          nnwqrd = word_at behind;
          pwqrd = word_at prev;
          sylpos = place (syl_at (some seg)) (syl_at next) (syl_at behind) (syl_at prev);
          wqrdpos = place (word_at (some seg)) (word_at next) (word_at behind) (word_at prev);
          pbreak = pbreak_of (tc_get_word u (some seg));
          pos = pos_of (tc_get_word u (some seg));
          punc = asked.punctuation;
          npos = pos_of (tc_get_word u next);
          npunc = asked.next_punctuation;
        },
      )

  -- A feature that is asked of a word, if there is one.
  abbrev pub needs : String → Option u.Item → Outcome CostError Bool
  needs f none = ok true
  needs f (some word) = if is_present u c f word then ok true else err missing_feature

  module _ (s : PhoneSets) where
    -- Of one of the two phones, and asked only where it has `midcoef`.
    unfoldable pub is_bad_f0 : u.Item → Outcome CostError Bool
    unfolding is_sonorous
    is_bad_f0 p =
        let sonorous = is_sonorous u c s (name_of u c s p) in
        if is_present u c "midcoef" p
        then (do b ← sonorous; ok (b && c.is_unvoiced p))
        else ok false

    -- The penalty is halved as a whole number.
    unfoldable pub get_bad_f0 : u.Item → u.Item → Outcome CostError ℕ
    unfolding is_bad_f0
    get_bad_f0 seg next = do
      left ← is_bad_f0 seg
      right ← is_bad_f0 next
      ok (((if left then 1 else 0) + (if right then 1 else 0)) / 2)

    unfoldable pub ask : u.Item → Outcome CostError Asked
    unfolding get_bad_f0
    ask seg = do
      is_vowel ← of_phone (ph_is_vowel (name_of u c s seg) s)
      is_silence ← of_phone (ph_is_silence (name_of u c s seg) s)
      next ← elim (u.inext seg) [ none ↦ err null_item | some next ↦ ok next ]
      f0_penalty ← get_bad_f0 seg next
      next_is_silence ← of_phone (ph_is_silence (name_of u c s next) s)
      next_is_vowel ← of_phone (ph_is_vowel (name_of u c s next) s)
      has_pbreak ← needs "pbreak" (tc_get_word u (some seg))
      has_pos ← needs "pos" (tc_get_word u (some seg))
      punctuation ← punc_of (tc_get_word u (some seg))
      next_has_pos ← needs "pos" (tc_get_word u (some next))
      next_punctuation ← punc_of (tc_get_word u (some next))
      ok (record {
        is_vowel = is_vowel;
        is_silence = is_silence;
        f0_penalty = f0_penalty;
        next_is_silence = next_is_silence;
        next_is_vowel = next_is_vowel;
        punctuation = punctuation;
        next_punctuation = next_punctuation;
      })

    unfoldable pub flatpack : u.Item → PhoneHash → Outcome CostError (PhoneHash × TcData)
    unfolding ask pack
    flatpack seg h = do asked ← ask seg; ok (pack seg asked h)
