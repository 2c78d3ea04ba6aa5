-- ===== src/TargetCost/Flat/Costs.antt =====
-- The costs of EST_FlatTargetCost over the packed numbers of a target and a candidate, and their sum.
use speech_synthesis_system.Base.{
  ℕ, ◌+◌, ◌*◌, Bool, true, false, ◌&&◌, ◌||◌, not, Option, none, some, ◌==◌, if◌then◌else◌,
}
use speech_synthesis_system.TargetCost.Costs.{Score, cost_of, same_flag}
use speech_synthesis_system.TargetCost.Flat.Packing.{TcData}

abbrev pub same_number : Option ℕ → Option ℕ → Bool
same_number none none = true
same_number (some a) (some b) = a == b
same_number none (some b) = false
same_number (some a) none = false

unfoldable pub stress_cost : TcData → TcData → ℕ
stress_cost t c =
    if t.vowel && not t.sil
    then (if c.syl == 0 || not (c.nsyl == 0)
        then 1
        else if not (t.syl_stress == c.syl_stress)
        then 1
        else if not (t.nsyl_stress == c.nsyl_stress)
        then 1
        else 0)
    else 0

unfoldable pub position_in_syllable_cost : TcData → TcData → ℕ
position_in_syllable_cost t c = cost_of (t.sylpos == c.sylpos)

unfoldable pub position_in_word_cost : TcData → TcData → ℕ
position_in_word_cost t c = cost_of (t.wqrdpos == c.wqrdpos)

unfoldable pub position_in_phrase_cost : TcData → TcData → ℕ
position_in_phrase_cost t c =
    if t.wqrd == 0 && c.wqrd == 0
    then 0
    else if t.wqrd == 0 || c.wqrd == 0
    then 1
    else cost_of (same_number t.pbreak c.pbreak)

-- In halves, for one of the two words: their numbers, and the numbers of their punctuation.
abbrev pub half_punctuation : ℕ → ℕ → Option ℕ → Option ℕ → ℕ
half_punctuation tword cword tpunc cpunc =
    if not (tword == 0) && cword == 0 || tword == 0 && not (cword == 0)
    then 1
    else if not (tword == 0) && not (cword == 0)
    then cost_of (same_number tpunc cpunc)
    else 0

unfoldable pub punctuation_cost : TcData → TcData → ℕ
punctuation_cost t c =
    half_punctuation t.wqrd c.wqrd t.punc c.punc + half_punctuation t.nwqrd c.nwqrd t.npunc c.npunc

unfoldable pub partofspeech_cost : TcData → TcData → ℕ
partofspeech_cost t c =
    if t.wqrd == 0 && c.wqrd == 0
    then 0
    else if t.wqrd == 0 || c.wqrd == 0
    then 1
    else if not (same_number t.pos c.pos)
    then 1
    else if t.nwqrd == 0 && c.nwqrd == 0
    then 0
    else if t.nwqrd == 0 || c.nwqrd == 0
    then 1
    else if not (same_number t.npos c.npos)
    then 1
    else 0

unfoldable pub left_context_cost : TcData → TcData → ℕ
left_context_cost t c = cost_of (t.lc == c.lc)

unfoldable pub right_context_cost : TcData → TcData → ℕ
right_context_cost t c = cost_of (t.rc == c.rc)

unfoldable pub out_of_lex_cost : TcData → TcData → ℕ
out_of_lex_cost t c =
    if not (same_flag c.bad_ool t.bad_ool)
    then 1
    else if not (same_flag c.nbad_ool t.nbad_ool)
    then 1
    else 0

unfoldable pub bad_duration_cost : TcData → TcData → ℕ
bad_duration_cost t c =
    if not (same_flag c.bad_dur t.bad_dur)
    then 1
    else if not (same_flag c.nbad_dur t.nbad_dur)
    then 1
    else if not (same_flag c.pbad_dur t.pbad_dur)
    then 1
    else if not (same_flag c.nnbad_dur t.nnbad_dur)
    then 1
    else 0

-- In halves.
unfoldable pub bad_f0_cost : TcData → ℕ
bad_f0_cost c = c.bad_f0

-- `EST_FlatTargetCost::operator()` of packed numbers.
unfoldable pub flat_target_cost : TcData → TcData → Score
unfolding stress_cost position_in_syllable_cost position_in_word_cost partofspeech_cost
    position_in_phrase_cost left_context_cost right_context_cost bad_duration_cost bad_f0_cost
    punctuation_cost
flat_target_cost t c = record {
  weighted =
      10 * stress_cost t c
      + 5 * position_in_syllable_cost t c
      + 5 * position_in_word_cost t c
      + 6 * partofspeech_cost t c
      + 15 * position_in_phrase_cost t c
      + 4 * left_context_cost t c
      + 3 * right_context_cost t c;
  weight_sum = 10 + 5 + 5 + 6 + 15 + 4 + 3;
  bad_halves = 20 * bad_duration_cost t c + 10 * bad_f0_cost c + 10 * punctuation_cost t c;
}
