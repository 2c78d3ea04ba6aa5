-- ===== src/TargetCost/Flat/Packed.antt =====
-- What `pack` keeps of two segments beside the costs of EST_TargetCost.cc: places, words and contexts.
use speech_synthesis_system.Base.{
  ℕ, String, ◌≡◌, refl, ap, sym, ◌∙◌, Outcome, ok, true, false, Bool, ◌&&◌, ◌||◌, not, Option, none,
  some, ◌==◌, if◌then◌else◌, arith,
}
use speech_synthesis_system.Builtin.Items.{Items, exists}
use speech_synthesis_system.TargetCost.Contexts.{
  CostError, Contents, text_or, tc_get_syl, tc_get_word, next_of,
}
use speech_synthesis_system.TargetCost.Costs.{
  cost_of, same_flag, words_agree, agree_by, same_feature, same_simple_pos, is_present,
  next_presence, presence_if,
}
use speech_synthesis_system.TargetCost.Costs
use speech_synthesis_system.TargetCost.Itself.{HasFeature}
use speech_synthesis_system.TargetCost.Flat.Costs as Flat
use speech_synthesis_system.TargetCost.Flat.Numbers.{PhoneHash}
use speech_synthesis_system.TargetCost.Flat.Packing.{TcData, Asked, pos_of, phone_at, pack}
use speech_synthesis_system.TargetCost.Flat.Hash.{IsNumbering, IsKept, simple_phone_lem}
use speech_synthesis_system.TargetCost.Flat.Alike.{
  HasNumber, HasNumber-IsKept, same_name, HasNumber-same_name, simple_pos-same,
}
use speech_synthesis_system.TargetCost.Flat.Places.{
  at_segment, at_next, number_at-exists, HasIds, place_by-same,
}

module _ (u : Items) (c : Contents u) (after_underscore : String → ℕ) where
  abbrev name_at : Option u.Item → Option String
  name_at none = none
  name_at (some p) = some (text_or "" (c.feature "name" p))

  same_name-agree_by :
      (p q : Option u.Item)
      → same_name (name_at p) (name_at q) ≡ agree_by u (same_feature u c "name" "") p q
  same_name-agree_by none none = refl
  same_name-agree_by none (some q) = refl
  same_name-agree_by (some p) none = refl
  same_name-agree_by (some p) (some q) = refl

  phone_at_lem :
      (p : Option u.Item) (h : PhoneHash)
      → IsNumbering h
      → let (later, n) = phone_at u c after_underscore p h in
        IsNumbering later × IsKept h later × HasNumber later (name_at p) n
  phone_at_lem none h keeps = (keeps, λ a n e. e, refl)
  phone_at_lem (some p) h keeps = simple_phone_lem (text_or "" (c.feature "name" p)) h keeps

  -- The hash stays right, and the two contexts have the numbers of the neighbours' names.
  pub pack_lem :
      (seg : u.Item) (asked : Asked) (h : PhoneHash)
      → IsNumbering h
      → let (later, f) = pack u c after_underscore seg asked h in
        IsNumbering later
        × IsKept h later
        × HasNumber later (name_at (u.iprev seg)) f.lc
        × HasNumber later (name_at (next_of u (next_of u (some seg)))) f.rc
  unfolding pack
  pack_lem seg asked h keeps =
      let (h1, right) = phone_at u c after_underscore (next_of u (next_of u (some seg))) h in
      let first = phone_at_lem (next_of u (next_of u (some seg))) h keeps in
      let second = phone_at_lem (u.iprev seg) h1 first.0 in
      (
        second.0,
        λ a n e. second.1 a n (first.1 a n e),
        second.2,
        HasNumber-IsKept h1 (phone_at u c after_underscore (u.iprev seg) h1).0
            (name_at (next_of u (next_of u (some seg)))) right second.1 first.2,
      )

  same_pos :
      (p q : u.Item)
      → Flat.same_number
          (pos_of u c after_underscore (some p))
          (pos_of u c after_underscore (some q))
        ≡ same_simple_pos u c p q
  same_pos p q = simple_pos-same (text_or "" (c.feature "pos" p)) (text_or "" (c.feature "pos" q))

  abbrev one_word : Option u.Item → Option u.Item → ℕ → ℕ
  one_word left cand rest =
      if not (exists left) && not (exists cand)
      then 0
      else if not (exists left) || not (exists cand)
      then 1
      else if not
          (Flat.same_number (pos_of u c after_underscore left) (pos_of u c after_underscore cand))
      then 1
      else rest

  one_word_lem :
      (left cand : Option u.Item) (rest : ℕ)
      → one_word left cand rest ≡ (
          if not (agree_by u (same_simple_pos u c) left cand)
          then 1
          else if not (exists left)
          then 0
          else rest)
  one_word_lem none none rest = refl
  one_word_lem none (some q) rest = refl
  one_word_lem (some p) none rest = refl
  one_word_lem (some p) (some q) rest = ap (λ (b : Bool). if not b then 1 else rest) (same_pos p q)

  last_word_lem :
      (right cand : Option u.Item)
      → one_word right cand 0 ≡ cost_of (agree_by u (same_simple_pos u c) right cand)
  last_word_lem right cand = one_word_lem right cand 0 ∙ ground (arith)

  -- The cost of words that have their parts of speech.
  abbrev words_cost : Option u.Item → Option u.Item → Option u.Item → Option u.Item → ℕ
  words_cost left cand_left right cand_right =
      if not (agree_by u (same_simple_pos u c) left cand_left)
      then 1
      else if not (exists left)
      then 0
      else cost_of (agree_by u (same_simple_pos u c) right cand_right)

  choice_ok :
      (a b : Bool) (n : ℕ)
      → ◌≡◌ {A = Outcome CostError ℕ}
          (if not a then ok 1 else if not b then ok 0 else ok n)
          (ok (if not a then 1 else if not b then 0 else n))
  choice_ok true true n = refl
  choice_ok true false n = refl
  choice_ok false true n = refl
  choice_ok false false n = refl

  words_agree-ok :
      (f : String) (test : u.Item → u.Item → Bool) (p q : Option u.Item)
      → HasFeature u c f p
      → HasFeature u c f q
      → words_agree u c f test p q ≡ ok (agree_by u test p q)
  words_agree-ok f test none none h k = refl
  words_agree-ok f test none (some q) h k = refl
  words_agree-ok f test (some p) none h k = refl
  words_agree-ok f test (some p) (some q) h k = rw (h, k) refl

  -- The words of a segment and of the next one have their parts of speech.
  abbrev pub HasPos : u.Item → Type 0
  HasPos seg =
      HasFeature u c "pos" (tc_get_word u (some seg))
      × HasFeature u c "pos" (tc_get_word u (next_of u (some seg)))

  partofspeech_cost-words :
      (targ cand : u.Item)
      → HasPos targ
      → HasPos cand
      → Costs.partofspeech_cost u c targ cand
        ≡ ok (
            words_cost
              (tc_get_word u (some targ))
              (tc_get_word u (some cand))
              (tc_get_word u (next_of u (some targ)))
              (tc_get_word u (next_of u (some cand))))
  unfolding Costs.partofspeech_cost
  partofspeech_cost-words targ cand h k =
      rw
        (
          words_agree-ok "pos" (same_simple_pos u c) (tc_get_word u (some targ))
              (tc_get_word u (some cand)) h.0 k.0,
          words_agree-ok "pos" (same_simple_pos u c) (tc_get_word u (next_of u (some targ)))
              (tc_get_word u (next_of u (some cand))) h.1 k.1,
        )
        (choice_ok _ _ _)

  partofspeech_lem :
      (left cand_left right cand_right : Option u.Item) (t k : TcData)
      → (t.wqrd == 0) ≡ not (exists left)
      → (k.wqrd == 0) ≡ not (exists cand_left)
      → (t.nwqrd == 0) ≡ not (exists right)
      → (k.nwqrd == 0) ≡ not (exists cand_right)
      → t.pos ≡ pos_of u c after_underscore left
      → k.pos ≡ pos_of u c after_underscore cand_left
      → t.npos ≡ pos_of u c after_underscore right
      → k.npos ≡ pos_of u c after_underscore cand_right
      → Flat.partofspeech_cost t k ≡ words_cost left cand_left right cand_right
  unfolding Flat.partofspeech_cost
  partofspeech_lem left cand_left right cand_right t k a b d e f g h i =
      rw (a, b, d, e, f, g, h, i)
        (one_word_lem left cand_left (one_word right cand_right 0)
          ∙ ap
              (λ (n : ℕ).
                if not (agree_by u (same_simple_pos u c) left cand_left)
                then 1
                else if not (exists left)
                then 0
                else n)
              (last_word_lem right cand_right))

  -- The ids of the syllables and of the words around a segment.
  pub record HasUnits (seg : u.Item) : Type 0 where
    pub syllables : HasIds u c after_underscore (tc_get_syl u) seg
    pub words : HasIds u c after_underscore (tc_get_word u) seg

  pub positions_agree :
      (targ cand : u.Item) (a b : Asked) (h h1 : PhoneHash)
      → HasUnits targ
      → HasUnits cand
      → HasPos targ
      → HasPos cand
      → let t = (pack u c after_underscore targ a h).1 in
        let k = (pack u c after_underscore cand b h1).1 in
        (Flat.position_in_syllable_cost t k ≡ Costs.position_in_syllable_cost u targ cand)
        × (Flat.position_in_word_cost t k ≡ Costs.position_in_word_cost u targ cand)
        × (ok (Flat.partofspeech_cost t k) ≡ Costs.partofspeech_cost u c targ cand)
  unfolding pack Flat.position_in_syllable_cost Flat.position_in_word_cost
      Costs.position_in_syllable_cost Costs.position_in_word_cost
  positions_agree targ cand a b h h1 units cand_units has_pos cand_has_pos =
      let exists_at = number_at-exists u c after_underscore (tc_get_word u) in
      (
        ap cost_of (
            place_by-same u c after_underscore (tc_get_syl u) targ cand units.syllables
              cand_units.syllables),
        ap cost_of (
            place_by-same u c after_underscore (tc_get_word u) targ cand units.words
              cand_units.words),
        ap ok (
              partofspeech_lem (tc_get_word u (some targ)) (tc_get_word u (some cand))
                (tc_get_word u (next_of u (some targ))) (tc_get_word u (next_of u (some cand)))
                (pack u c after_underscore targ a h).1 (pack u c after_underscore cand b h1).1
                (exists_at targ (some targ) units.words at_segment)
                (exists_at cand (some cand) cand_units.words at_segment)
                (exists_at targ (next_of u (some targ)) units.words at_next)
                (exists_at cand (next_of u (some cand)) cand_units.words at_next) refl refl refl
                refl)
            ∙ sym (partofspeech_cost-words targ cand has_pos cand_has_pos),
      )

  pub contexts_agree :
      (targ cand : u.Item) (a b : Asked) (h : PhoneHash)
      → IsNumbering h
      → let (h1, t) = pack u c after_underscore targ a h in
        let k = (pack u c after_underscore cand b h1).1 in
        (Flat.left_context_cost t k ≡ Costs.left_context_cost u c targ cand)
        × (Flat.right_context_cost t k ≡ Costs.right_context_cost u c targ cand)
  unfolding Flat.left_context_cost Flat.right_context_cost Costs.left_context_cost
      Costs.right_context_cost
  contexts_agree targ cand a b h keeps =
      let (h1, t) = pack u c after_underscore targ a h in
      let (h2, k) = pack u c after_underscore cand b h1 in
      let first = pack_lem targ a h keeps in
      let second = pack_lem cand b h1 first.0 in
      let same =
        λ (p q : Option u.Item) (m n : ℕ) (has : HasNumber h1 (name_at p) m)
            (cand_has : HasNumber h2 (name_at q) n).
          ap cost_of (
            HasNumber-same_name h2 (name_at p) (name_at q) m n second.0
              (HasNumber-IsKept h1 h2 (name_at p) m second.1 has) cand_has
            ∙ same_name-agree_by p q) in
      (
        same (u.iprev targ) (u.iprev cand) t.lc k.lc first.2 second.2,
        same (next_of u (next_of u (some targ))) (next_of u (next_of u (some cand))) t.rc k.rc
            first.3 second.3,
      )
