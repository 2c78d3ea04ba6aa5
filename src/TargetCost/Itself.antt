-- ===== src/TargetCost/Itself.antt =====
-- The default target cost of a unit that is the target itself.
use speech_synthesis_system.Base.{
  ℕ, ◌*◌, String, ◌≡◌, refl, sym, ap, subst, ◌⊎◌, inl, inr, Bool, true, false, not, Option, none,
  some, Outcome, ok, eq_refl, if◌then◌else◌, arith,
}
use speech_synthesis_system.Phones.State.{PhoneSets}
use speech_synthesis_system.Builtin.Items.{Items, of_item, exists}
use speech_synthesis_system.TargetCost.Contexts.{
  CostError, Contents, text_or, Tcpos, tcpos_medial, tcpos_inter, tcpos_initial, tcpos_final, tcpos,
  is_tcpos, simple_pos, tc_get_syl, tc_get_word, next_of, is_spoken_vowel,
}
use speech_synthesis_system.TargetCost.Costs.{
  cost_of, same_flag, agree_by, is_stressed_syl, stress_differs, position_in_syllable_cost,
  position_in_word_cost, same_feature, position_in_phrase_cost, tokens_agree, token_of,
  word_punctuation, punctuation_cost, same_simple_pos, partofspeech_cost, left_context_cost,
  right_context_cost, is_present, words_agree, presence_if, out_of_lex_cost, bad_duration_cost,
  stress_at, stress_cost, bad_f0_cost, default_target_cost,
}

is_tcpos-same : (x : Tcpos) → is_tcpos x x ≡ true
is_tcpos-same tcpos_medial = refl
is_tcpos-same tcpos_inter = refl
is_tcpos-same tcpos_initial = refl
is_tcpos-same tcpos_final = refl

either_way :
    (b : Bool) → ◌≡◌ {A = Outcome CostError ℕ} (if not b then ok 0 else ok (cost_of true)) (ok 0)
either_way true = refl
either_way false = refl

same_flag-same : (b : Bool) → same_flag b b ≡ true
same_flag-same true = refl
same_flag-same false = refl

module _ (u : Items) where
  agree_by-same :
      (test : u.Item → u.Item → Bool) (o : Option u.Item)
      → ((p : u.Item) → test p p ≡ true)
      → agree_by u test o o ≡ true
  agree_by-same test none h = refl
  agree_by-same test (some p) h = h p

  stress_differs-same : (o : Option u.Item) → exists o ≡ true → stress_differs u o o ≡ ok 0
  unfolding stress_differs
  stress_differs-same none h = cc
  stress_differs-same (some p) h = ap (λ b. ok (cost_of b)) (same_flag-same (is_stressed_syl u p))

  module _ (c : Contents u) where
    -- There is no word, or its token is there.
    abbrev pub HasToken : Option u.Item → Type 0
    HasToken none = Unit
    HasToken (some p) = exists (of_item u.parent (u.as_relation "Token" p)) ≡ true

    same_feature-same : (f default : String) (p : u.Item) → same_feature u c f default p p ≡ true
    same_feature-same f default p = eq_refl (text_or default (c.feature f p))

    tokens_agree-same : (t : Option u.Item) → exists t ≡ true → tokens_agree u c t t ≡ ok true
    unfolding tokens_agree
    tokens_agree-same none h = cc
    tokens_agree-same (some q) h = ap ok (same_feature-same "punc" "NONE" q)

    word_punctuation-same : (o : Option u.Item) → HasToken o → word_punctuation u c o o ≡ ok 0
    unfolding word_punctuation
    word_punctuation-same none h = refl
    word_punctuation-same (some p) h = rw (tokens_agree-same (token_of u c p) h) refl

    context_lem :
        (targ : u.Item)
        → (left_context_cost u c targ targ ≡ 0) × (right_context_cost u c targ targ ≡ 0)
    unfolding left_context_cost right_context_cost
    context_lem targ = (
      ap cost_of
          (agree_by-same (same_feature u c "name" "") (u.iprev targ) (same_feature-same "name" "")),
      ap cost_of (
          agree_by-same (same_feature u c "name" "") (next_of u (next_of u (some targ)))
            (same_feature-same "name" "")),
    )

    -- There is no word, or it has the feature.
    abbrev pub HasFeature : String → Option u.Item → Type 0
    HasFeature f none = Unit
    HasFeature f (some p) = is_present u c f p ≡ true

    words_agree-same :
        (f : String) (test : u.Item → u.Item → Bool) (o : Option u.Item)
        → ((p : u.Item) → test p p ≡ true)
        → HasFeature f o
        → words_agree u c f test o o ≡ ok true
    words_agree-same f test none same h = refl
    words_agree-same f test (some p) same h = rw (h, same p) refl

    position_in_phrase_cost-same :
        (targ : u.Item)
        → HasFeature "pbreak" (tc_get_word u (some targ))
        → position_in_phrase_cost u c targ targ ≡ ok 0
    unfolding position_in_phrase_cost
    position_in_phrase_cost-same targ pbreak =
        rw
          (words_agree-same "pbreak" (same_feature u c "pbreak" "") (tc_get_word u (some targ))
            (same_feature-same "pbreak" "") pbreak)
          refl

    partofspeech_cost-same :
        (targ : u.Item)
        → HasFeature "pos" (tc_get_word u (some targ))
        → HasFeature "pos" (tc_get_word u (next_of u (some targ)))
        → partofspeech_cost u c targ targ ≡ ok 0
    unfolding partofspeech_cost
    partofspeech_cost-same targ pos next_pos =
        let same = λ (p : u.Item). eq_refl (simple_pos (text_or "" (c.feature "pos" p))) in
        rw
          (
            words_agree-same "pos" (same_simple_pos u c) (tc_get_word u (some targ)) same pos,
            words_agree-same "pos" (same_simple_pos u c) (tc_get_word u (next_of u (some targ)))
                same next_pos,
          )
          (either_way (exists (tc_get_word u (some targ))))

    presence_if-same : (f : String) (o : Option u.Item) → presence_if u c f o o ≡ true
    presence_if-same f none = refl
    presence_if-same f (some p) = same_flag-same (is_present u c f p)

    presence_lem :
        (targ n : u.Item)
        → u.inext targ ≡ some n
        → (out_of_lex_cost u c targ targ ≡ ok 0) × (bad_duration_cost u c targ targ ≡ ok 0)
    unfolding out_of_lex_cost bad_duration_cost
    presence_lem targ n next = (
      rw
          (
            same_flag-same (is_present u c "bad_lex" targ),
            next,
            same_flag-same (is_present u c "bad_lex" n),
          )
          refl,
      rw
          (
            same_flag-same (is_present u c "bad_dur" targ),
            next,
            same_flag-same (is_present u c "bad_dur" n),
            presence_if-same "bad_dur" (u.iprev targ),
            presence_if-same "bad_dur" (next_of u (some n)),
          )
          refl,
    )

    punctuation_cost-same :
        (targ : u.Item)
        → HasToken (tc_get_word u (some targ))
        → HasToken (tc_get_word u (u.inext targ))
        → punctuation_cost u c targ targ ≡ ok 0
    unfolding punctuation_cost
    punctuation_cost-same targ token next_token =
        rw
          (
            word_punctuation-same (tc_get_word u (some targ)) token,
            word_punctuation-same (tc_get_word u (u.inext targ)) next_token,
          )
          refl

    position_lem :
        (targ : u.Item)
        → (position_in_syllable_cost u targ targ ≡ 0) × (position_in_word_cost u targ targ ≡ 0)
    unfolding position_in_syllable_cost position_in_word_cost
    position_lem targ = (
      ap cost_of (is_tcpos-same (tcpos u (tc_get_syl u) targ)),
      ap cost_of (is_tcpos-same (tcpos u (tc_get_word u) targ)),
    )

    module _ (s : PhoneSets) where
      -- The segment is a phone of the set, and in a syllable if it is a vowel.
      abbrev pub IsPlaced : Option u.Item → Type 0
      IsPlaced p =
          (is_spoken_vowel u c s p ≡ ok false)
          ⊎ ((is_spoken_vowel u c s p ≡ ok true) × (exists (tc_get_syl u p) ≡ true))

      stress_at-same : (p : Option u.Item) → IsPlaced p → stress_at u c s p p ≡ ok 0
      unfolding stress_at
      stress_at-same p (inl h) = rw h refl
      stress_at-same p (inr (h, syl)) = rw h (stress_differs-same (tc_get_syl u p) syl)

      stress_cost-same :
          (targ : u.Item)
          → IsPlaced (some targ)
          → IsPlaced (u.inext targ)
          → stress_cost u c s targ targ ≡ ok 0
      unfolding stress_cost
      stress_cost-same targ left right =
          rw (stress_at-same (some targ) left) (stress_at-same (u.inext targ) right)

      -- A unit used for itself, with a segment behind it, both of them phones of the current set that are in
      -- a syllable if they are vowels, with tokens for their words, with `pos` for both words and `pbreak`
      -- for the first, and for which `bad_f0_cost` returns, costs nothing but what a missing f0 costs:
      -- `operator()` returns, the weighted sum is 0, and what is added is that part.
      pub default_target_cost-same :
          (targ n : u.Item) (f0 : ℕ)
          → u.inext targ ≡ some n
          → IsPlaced (some targ)
          → IsPlaced (some n)
          → HasToken (tc_get_word u (some targ))
          → HasToken (tc_get_word u (some n))
          → HasFeature "pos" (tc_get_word u (some targ))
          → HasFeature "pos" (tc_get_word u (some n))
          → HasFeature "pbreak" (tc_get_word u (some targ))
          → bad_f0_cost u c s targ ≡ ok f0
          → default_target_cost u c s targ targ
            ≡ ok (record { weighted = 0; weight_sum = 48; bad_halves = 10 * f0 })
      unfolding default_target_cost
      default_target_cost-same targ n f0 next left right token next_token pos next_pos pbreak
            f0_is =
          rw
            (
              stress_cost-same targ left (subst IsPlaced (sym next) right),
              partofspeech_cost-same targ pos
                  (subst (λ o. HasFeature "pos" (tc_get_word u o)) (sym next) next_pos),
              position_in_phrase_cost-same targ pbreak,
              (presence_lem targ n next).1,
              f0_is,
              punctuation_cost-same targ token
                  (subst (λ o. HasToken (tc_get_word u o)) (sym next) next_token),
              (presence_lem targ n next).0,
              (position_lem targ).0,
              (position_lem targ).1,
              (context_lem targ).0,
              (context_lem targ).1,
            )
            (ap (λ h. ok (record { weighted = 0; weight_sum = 48; bad_halves = h })) (omega arith))
