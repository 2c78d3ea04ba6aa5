-- ===== src/TargetCost/Costs.antt =====
-- The cost functions of EST_TargetCost.cc and the default cost, `EST_DefaultTargetCost::operator()`.
use speech_synthesis_system.Base.{
  ℕ, ◌+◌, ◌*◌, String, Bool, true, false, ◌&&◌, not, Option, none, some, Outcome, ok, err, ◌>>=◌,
  str_eq, ltb, ◌==◌, if◌then◌else◌,
}
use speech_synthesis_system.Phones.State.{PhoneSets}
use speech_synthesis_system.Phones.Classes.{
  ph_is_vowel, ph_is_approximant, ph_is_liquid, ph_is_nasal,
}
use speech_synthesis_system.Builtin.Items.{Items, of_item, exists}
use speech_synthesis_system.TargetCost.Contexts.{
  CostError, null_item, missing_feature, of_phone, Contents, text_or, tcpos, is_tcpos, simple_pos,
  tc_get_syl, tc_get_word, next_of, name_of, is_spoken_vowel,
}

-- A score before its division: the weighted sum, the sum of the weights, and the halves that are added
-- behind the division.
pub record Score : Type 0 where
  pub weighted : ℕ
  pub weight_sum : ℕ
  pub bad_halves : ℕ

abbrev pub cost_of : Bool → ℕ
cost_of true = 0
cost_of false = 1

abbrev pub same_flag : Bool → Bool → Bool
same_flag true true = true
same_flag false false = true
same_flag a b = false

module _ (u : Items) where
  -- Neither is there, or both are and agree.
  abbrev pub agree_by : (u.Item → u.Item → Bool) → Option u.Item → Option u.Item → Bool
  agree_by test none none = true
  agree_by test (some p) none = false
  agree_by test none (some q) = false
  agree_by test (some p) (some q) = test p q

  abbrev pub is_stressed_syl : u.Item → Bool
  is_stressed_syl p = ltb 0 (u.stress p)

  unfoldable pub stress_differs : Option u.Item → Option u.Item → Outcome CostError ℕ
  stress_differs tsyl none = ok 1
  stress_differs none (some csyl) = err null_item
  stress_differs (some tsyl) (some csyl) =
      ok (cost_of (same_flag (is_stressed_syl csyl) (is_stressed_syl tsyl)))

  unfoldable pub position_in_syllable_cost : u.Item → u.Item → ℕ
  unfolding tcpos
  position_in_syllable_cost targ cand =
      cost_of (is_tcpos (tcpos u (tc_get_syl u) targ) (tcpos u (tc_get_syl u) cand))

  unfoldable pub position_in_word_cost : u.Item → u.Item → ℕ
  unfolding tcpos
  position_in_word_cost targ cand =
      cost_of (is_tcpos (tcpos u (tc_get_word u) targ) (tcpos u (tc_get_word u) cand))

  module _ (c : Contents u) where
    abbrev pub same_feature : String → String → u.Item → u.Item → Bool
    same_feature f default p q =
        str_eq (text_or default (c.feature f p)) (text_or default (c.feature f q))

    abbrev pub is_present : String → u.Item → Bool
    is_present f p = elim (c.feature f p) [ none ↦ false | some t ↦ true ]

    -- Of two words, where both are there, the feature is asked of both.
    abbrev pub words_agree :
        String → (u.Item → u.Item → Bool) → Option u.Item → Option u.Item → Outcome CostError Bool
    words_agree f test none none = ok true
    words_agree f test (some p) none = ok false
    words_agree f test none (some q) = ok false
    words_agree f test (some p) (some q) =
        if is_present f p && is_present f q then ok (test p q) else err missing_feature

    unfoldable pub position_in_phrase_cost : u.Item → u.Item → Outcome CostError ℕ
    position_in_phrase_cost targ cand = do
      b ←
          words_agree "pbreak" (same_feature "pbreak" "") (tc_get_word u (some targ))
            (tc_get_word u (some cand))
      ok (cost_of b)

    unfoldable pub tokens_agree : Option u.Item → Option u.Item → Outcome CostError Bool
    tokens_agree none q = err null_item
    tokens_agree (some p) none = err null_item
    tokens_agree (some p) (some q) = ok (same_feature "punc" "NONE" p q)

    abbrev pub token_of : u.Item → Option u.Item
    token_of w = of_item u.parent (u.as_relation "Token" w)

    -- In halves, for one of the two words.
    unfoldable pub word_punctuation : Option u.Item → Option u.Item → Outcome CostError ℕ
    unfolding tokens_agree
    word_punctuation none none = ok 0
    word_punctuation (some p) none = ok 1
    word_punctuation none (some q) = ok 1
    word_punctuation (some p) (some q) = do
      b ← tokens_agree (token_of p) (token_of q)
      ok (cost_of b)

    unfoldable pub punctuation_cost : u.Item → u.Item → Outcome CostError ℕ
    unfolding word_punctuation
    punctuation_cost targ cand = do
      a ← word_punctuation (tc_get_word u (some targ)) (tc_get_word u (some cand))
      b ←
          word_punctuation (tc_get_word u (next_of u (some targ)))
            (tc_get_word u (next_of u (some cand)))
      ok (a + b)

    abbrev pub same_simple_pos : u.Item → u.Item → Bool
    same_simple_pos p q =
        str_eq (simple_pos (text_or "" (c.feature "pos" p)))
          (simple_pos (text_or "" (c.feature "pos" q)))

    unfoldable pub partofspeech_cost : u.Item → u.Item → Outcome CostError ℕ
    unfolding simple_pos
    partofspeech_cost targ cand =
        let left = tc_get_word u (some targ) in
        let cand_left = tc_get_word u (some cand) in
        let right = tc_get_word u (next_of u (some targ)) in
        let cand_right = tc_get_word u (next_of u (some cand)) in
        let right_cost = (do
          b ← words_agree "pos" same_simple_pos right cand_right
          ok (cost_of b)) in
        do
          b ← words_agree "pos" same_simple_pos left cand_left
          if not b then ok 1 else if not (exists left) then ok 0 else right_cost

    unfoldable pub left_context_cost : u.Item → u.Item → ℕ
    left_context_cost targ cand =
        cost_of (agree_by (same_feature "name" "") (u.iprev targ) (u.iprev cand))

    unfoldable pub right_context_cost : u.Item → u.Item → ℕ
    right_context_cost targ cand = cost_of (
        agree_by (same_feature "name" "") (next_of u (next_of u (some targ)))
          (next_of u (next_of u (some cand))))

    abbrev pub same_presence : String → u.Item → u.Item → Bool
    same_presence f p q = same_flag (is_present f p) (is_present f q)

    -- Of the next segments, which have to be there.
    abbrev pub next_presence : String → Option u.Item → Option u.Item → Outcome CostError Bool
    next_presence f (some p) (some q) = ok (same_presence f p q)
    next_presence f none q = err null_item
    next_presence f (some p) none = err null_item

    -- Of segments that are compared where both are there.
    abbrev pub presence_if : String → Option u.Item → Option u.Item → Bool
    presence_if f (some p) (some q) = same_presence f p q
    presence_if f none q = true
    presence_if f (some p) none = true

    unfoldable pub out_of_lex_cost : u.Item → u.Item → Outcome CostError ℕ
    out_of_lex_cost targ cand =
        let right = (do
          b ← next_presence "bad_lex" (u.inext cand) (u.inext targ)
          ok (cost_of b)) in
        if not (same_presence "bad_lex" cand targ) then ok 1 else right

    unfoldable pub bad_duration_cost : u.Item → u.Item → Outcome CostError ℕ
    bad_duration_cost targ cand =
        let right = (do
          b ← next_presence "bad_dur" (u.inext cand) (u.inext targ)
          ok (
              cost_of (
                b
                && (presence_if "bad_dur" (u.iprev cand) (u.iprev targ)
                    && presence_if "bad_dur" (next_of u (u.inext cand))
                        (next_of u (u.inext targ)))))) in
        if not (same_presence "bad_dur" cand targ) then ok 1 else right

    module _ (s : PhoneSets) where
      unfoldable pub stress_at : Option u.Item → Option u.Item → Outcome CostError ℕ
      unfolding is_spoken_vowel stress_differs
      stress_at targ cand = do
        b ← is_spoken_vowel u c s targ
        if b then stress_differs (tc_get_syl u targ) (tc_get_syl u cand) else ok 0

      unfoldable pub stress_cost : u.Item → u.Item → Outcome CostError ℕ
      unfolding stress_at
      stress_cost targ cand = do
        left ← stress_at (some targ) (some cand)
        if left == 1 then ok 1 else stress_at (u.inext targ) (u.inext cand)

      -- The four questions, each asked where those before it are answered no.
      unfoldable pub is_sonorous : String → Outcome CostError Bool
      is_sonorous phone =
          let nasal = of_phone (ph_is_nasal phone s) in
          let liquid = (do b ← of_phone (ph_is_liquid phone s); if b then ok true else nasal) in
          let approximant = (do
            b ← of_phone (ph_is_approximant phone s)
            if b then ok true else liquid) in
          do b ← of_phone (ph_is_vowel phone s); if b then ok true else approximant

      -- The last number of `midcoef`, which the phone has to have.
      abbrev pub midcoef_penalty : u.Item → Outcome CostError ℕ
      midcoef_penalty p =
          if is_present "midcoef" p
          then ok (if c.is_unvoiced p then 1 else 0)
          else err missing_feature

      -- In halves, for one of the two phones; `midcoef` is asked where the phone is sonorous.
      unfoldable pub phone_penalty : Option u.Item → Outcome CostError ℕ
      unfolding is_sonorous
      phone_penalty none = err null_item
      phone_penalty (some p) =
          let penalty = midcoef_penalty p in
          do b ← is_sonorous (name_of u c s p); if b then penalty else ok 0

      unfoldable pub bad_f0_cost : u.Item → Outcome CostError ℕ
      unfolding phone_penalty
      bad_f0_cost cand = do
        a ← phone_penalty (some cand)
        b ← phone_penalty (u.inext cand)
        ok (a + b)

      -- `EST_DefaultTargetCost::operator()`
      unfoldable pub default_target_cost : u.Item → u.Item → Outcome CostError Score
      unfolding stress_cost position_in_syllable_cost position_in_word_cost partofspeech_cost
          position_in_phrase_cost left_context_cost right_context_cost bad_duration_cost bad_f0_cost
          punctuation_cost out_of_lex_cost
      default_target_cost targ cand = do
        stress ← stress_cost targ cand
        partofspeech ← partofspeech_cost targ cand
        phrase ← position_in_phrase_cost targ cand
        duration ← bad_duration_cost targ cand
        f0 ← bad_f0_cost cand
        punctuation ← punctuation_cost targ cand
        lexicon ← out_of_lex_cost targ cand
        ok (record {
          weighted =
              10 * stress
              + 5 * position_in_syllable_cost targ cand
              + 5 * position_in_word_cost targ cand
              + 6 * partofspeech
              + 15 * phrase
              + 4 * left_context_cost targ cand
              + 3 * right_context_cost targ cand;
          weight_sum = 10 + 5 + 5 + 6 + 15 + 4 + 3;
          bad_halves = 20 * duration + 10 * f0 + 10 * punctuation + 20 * lexicon;
        })
