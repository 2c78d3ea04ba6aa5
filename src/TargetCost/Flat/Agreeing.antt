-- ===== src/TargetCost/Flat/Agreeing.antt =====
-- The costs of EST_FlatTargetCost.cc beside those of EST_TargetCost.cc, for two segments.
use speech_synthesis_system.Base.{
  ℕ, String, ◌≡◌, subst, sym, Bool, Option, none, some, ok, Outcome-cases, Bool-cases, arith,
  Option-cases, inl, inr, bind-ok,
}
use speech_synthesis_system.Phones.State.{PhoneSets}
use speech_synthesis_system.Builtin.Items.{Items, exists}
use speech_synthesis_system.TargetCost.Contexts.{Contents, tc_get_word}
use speech_synthesis_system.TargetCost.Costs.{
  cost_of, same_flag, agree_by, same_feature, same_simple_pos, is_present, next_presence,
  presence_if,
}
use speech_synthesis_system.TargetCost.Costs
use speech_synthesis_system.TargetCost.Itself.{HasFeature}
use speech_synthesis_system.TargetCost.Flat.Costs as Flat
use speech_synthesis_system.TargetCost.Flat.Numbers.{PhoneHash}
use speech_synthesis_system.TargetCost.Flat.Packing.{TcData, Asked, needs, pack, ask, flatpack}
use speech_synthesis_system.TargetCost.Flat.Hash.{IsNumbering}
use speech_synthesis_system.TargetCost.Flat.Packed.{
  HasUnits, HasPos, positions_agree, contexts_agree,
}
use speech_synthesis_system.TargetCost.Flat.Marked.{marks_agree, durations_agree}

module _ (u : Items) (c : Contents u) (after_underscore : String → ℕ) where
  abbrev Agrees : u.Item → u.Item → TcData → TcData → Type 0
  Agrees targ cand t k =
      (Flat.position_in_syllable_cost t k ≡ Costs.position_in_syllable_cost u targ cand)
      × (Flat.position_in_word_cost t k ≡ Costs.position_in_word_cost u targ cand)
      × (ok (Flat.partofspeech_cost t k) ≡ Costs.partofspeech_cost u c targ cand)
      × (Flat.left_context_cost t k ≡ Costs.left_context_cost u c targ cand)
      × (Flat.right_context_cost t k ≡ Costs.right_context_cost u c targ cand)
      × (ok (Flat.out_of_lex_cost t k) ≡ Costs.out_of_lex_cost u c targ cand)

  module _ (s : PhoneSets) where
    needs-HasFeature :
        (f : String) (o : Option u.Item) (x : Bool)
        → needs u c after_underscore f o ≡ ok x
        → HasFeature u c f o
    needs-HasFeature f none x e = tt
    needs-HasFeature f (some p) x e = elim (Bool-cases (is_present u c f p)) [
      | inl h ↦ h
      | inr h ↦ let e' = rw h at e in cc
    ]

    ask_lem :
        (seg : u.Item) (asked : Asked)
        → ask u c after_underscore s seg ≡ ok asked
        → (next : u.Item) × (u.inext seg ≡ some next) × HasPos u c after_underscore seg
    unfolding ask
    ask_lem seg asked e = elim (Option-cases (u.inext seg)) [
      | inl none_is ↦ absurd (ground (arith, none_is, e))
      | inr (next, next_is) ↦
          elim (Outcome-cases (needs u c after_underscore "pos" (tc_get_word u (some seg)))) [
            | inl (error, f) ↦ absurd (ground (arith, next_is, f, e))
            | inr (has_pos, f) ↦
                elim (Outcome-cases
                  (needs u c after_underscore "pos" (tc_get_word u (some next)))) [
                    | inl (error, g) ↦ absurd (ground (arith, next_is, f, g, e))
                    | inr (next_has_pos, g) ↦ (
                      next,
                      next_is,
                      (
                        needs-HasFeature "pos" (tc_get_word u (some seg)) has_pos f,
                        subst (λ o. HasFeature u c "pos" (tc_get_word u o)) (sym next_is)
                            (needs-HasFeature "pos" (tc_get_word u (some next)) next_has_pos g),
                      ),
                    )
                  ]
          ]
    ]

    flatpack_lem :
        (seg : u.Item) (h later : PhoneHash) (f : TcData)
        → flatpack u c after_underscore s seg h ≡ ok (later, f)
        → (asked : Asked) × (next : u.Item) × (u.inext seg ≡ some next)
          × HasPos u c after_underscore seg
          × (pack u c after_underscore seg asked h ≡ (later, f))
    unfolding flatpack
    flatpack_lem seg h later f e =
        let (asked, asked_is, packed) =
          bind-ok (ask u c after_underscore s seg)
            (λ asked. ok (pack u c after_underscore seg asked h)) (later, f) e in
        let (next, next_is, has_pos) = ask_lem seg asked asked_is in
        (asked, next, next_is, has_pos, cc)

    -- Where the ids of the syllables and words around the two segments are positive and tell them apart, and
    -- both segments have been packed one after the other from a hash that numbers phones apart, the flat
    -- costs of the place in the syllable, the place in the word, the part of speech, the two contexts and
    -- the lexicon are those of the default cost functions on the segments themselves.
    pub flatpack-agrees :
        (targ cand : u.Item) (h h1 h2 : PhoneHash) (t k : TcData)
        → IsNumbering h
        → HasUnits u c after_underscore targ
        → HasUnits u c after_underscore cand
        → flatpack u c after_underscore s targ h ≡ ok (h1, t)
        → flatpack u c after_underscore s cand h1 ≡ ok (h2, k)
        → (Flat.position_in_syllable_cost t k ≡ Costs.position_in_syllable_cost u targ cand)
          × (Flat.position_in_word_cost t k ≡ Costs.position_in_word_cost u targ cand)
          × (ok (Flat.partofspeech_cost t k) ≡ Costs.partofspeech_cost u c targ cand)
          × (Flat.left_context_cost t k ≡ Costs.left_context_cost u c targ cand)
          × (Flat.right_context_cost t k ≡ Costs.right_context_cost u c targ cand)
          × (ok (Flat.out_of_lex_cost t k) ≡ Costs.out_of_lex_cost u c targ cand)
    flatpack-agrees targ cand h h1 h2 t k keeps units cand_units e f =
        let (a, next, next_is, has_pos, t_is) = flatpack_lem targ h h1 t e in
        let (b, cand_next, cand_next_is, cand_has_pos, k_is) = flatpack_lem cand h1 h2 k f in
        let (h1', t') = pack u c after_underscore targ a h in
        let k' = (pack u c after_underscore cand b h1').1 in
        let (syllable, word, partofspeech) =
          positions_agree u c after_underscore targ cand a b h h1' units cand_units has_pos
            cand_has_pos in
        let (left, right) = contexts_agree u c after_underscore targ cand a b h keeps in
        let packed : Agrees targ cand t' k' = (
          syllable,
          word,
          partofspeech,
          left,
          right,
          marks_agree u c after_underscore targ cand next cand_next a b h h1' next_is cand_next_is,
        ) in
        subst (λ (y : PhoneHash × TcData). Agrees targ cand t y.1) k_is
          (subst
            (λ (x : PhoneHash × TcData).
              Agrees targ cand x.1 (pack u c after_underscore cand b x.0).1)
            t_is packed)

    -- Where moreover the two segments have a segment before them both or neither, and behind the next one
    -- both or neither, the flat cost of bad durations is the default one too.
    pub bad_duration_cost-flatpack :
        (targ cand next cand_next : u.Item) (h h1 h2 : PhoneHash) (t k : TcData)
        → u.inext targ ≡ some next
        → u.inext cand ≡ some cand_next
        → exists (u.iprev cand) ≡ exists (u.iprev targ)
        → exists (u.inext cand_next) ≡ exists (u.inext next)
        → flatpack u c after_underscore s targ h ≡ ok (h1, t)
        → flatpack u c after_underscore s cand h1 ≡ ok (h2, k)
        → ok (Flat.bad_duration_cost t k) ≡ Costs.bad_duration_cost u c targ cand
    bad_duration_cost-flatpack targ cand next cand_next h h1 h2 t k next_is cand_next_is prev behind
          e f =
        let (a, n, n_is, has_pos, t_is) = flatpack_lem targ h h1 t e in
        let (b, m, m_is, cand_has_pos, k_is) = flatpack_lem cand h1 h2 k f in
        let packed =
          durations_agree u c after_underscore targ cand next cand_next a b h
            (pack u c after_underscore targ a h).0 next_is cand_next_is prev behind in
        subst
          (λ (y : PhoneHash × TcData).
            ok (Flat.bad_duration_cost t y.1) ≡ Costs.bad_duration_cost u c targ cand)
          k_is
          (subst
            (λ (x : PhoneHash × TcData).
              ok (Flat.bad_duration_cost x.1 (pack u c after_underscore cand b x.0).1)
              ≡ Costs.bad_duration_cost u c targ cand)
            t_is packed)
