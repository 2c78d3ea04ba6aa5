-- ===== src/Builtin/Tests.antt =====
-- The theorems on the functions of ff.cc at a concrete utterance.
use speech_synthesis_system.Base.{
  ℕ, String, ◌≡◌, refl, true, Option, none, some, List, [], ◌∷◌, str_eq, ◌==◌, if◌then◌else◌,
}
use speech_synthesis_system.Builtin.Items.{Items, Laws, run}
use speech_synthesis_system.Builtin.Breaks.{ff_syl_accented}
use speech_synthesis_system.Builtin.Counts.{
  fsyl, lsyl, ff_syl_in, ff_syl_out, ff_ssyl_in, ff_ssyl_in_modified_version, ff_ssyl_out,
  ff_asyl_in, ff_asyl_in_modified_version, ff_asyl_out,
}
use speech_synthesis_system.Builtin.Phrase.{ff_syl_in-ff_syl_out}

-- Two words, the second of two syllables, in one phrase: the syllables, those as parts of the words, the
-- words as wholes of syllables, and the words as parts of the phrase.
data Place : Type 0 where
  s0 s1 s2 t0 t1 t2 w0 w1 p0 p1 : Place

abbrev code : Place → ℕ
code s0 = 0
code s1 = 1
code s2 = 2
code t0 = 3
code t1 = 4
code t2 = 5
code w0 = 6
code w1 = 7
code p0 = 8
code p1 = 9

abbrev in_syllable : Place → Option Place
in_syllable s0 = some s0
in_syllable s1 = some s1
in_syllable s2 = some s2
in_syllable t0 = some s0
in_syllable t1 = some s1
in_syllable t2 = some s2
in_syllable w0 = none
in_syllable w1 = none
in_syllable p0 = none
in_syllable p1 = none

abbrev in_structure : Place → Option Place
in_structure s0 = some t0
in_structure s1 = some t1
in_structure s2 = some t2
in_structure t0 = some t0
in_structure t1 = some t1
in_structure t2 = some t2
in_structure w0 = some w0
in_structure w1 = some w1
in_structure p0 = some w0
in_structure p1 = some w1

abbrev in_phrase : Place → Option Place
in_phrase s0 = none
in_phrase s1 = none
in_phrase s2 = none
in_phrase t0 = none
in_phrase t1 = none
in_phrase t2 = none
in_phrase w0 = some p0
in_phrase w1 = some p1
in_phrase p0 = some p0
in_phrase p1 = some p1

abbrev toy_next : Place → Option Place
toy_next s0 = some s1
toy_next s1 = some s2
toy_next s2 = none
toy_next t0 = none
toy_next t1 = some t2
toy_next t2 = none
toy_next w0 = some w1
toy_next w1 = none
toy_next p0 = some p1
toy_next p1 = none

abbrev toy_previous : Place → Option Place
toy_previous s0 = none
toy_previous s1 = some s0
toy_previous s2 = some s1
toy_previous t0 = none
toy_previous t1 = none
toy_previous t2 = some t1
toy_previous w0 = none
toy_previous w1 = some w0
toy_previous p0 = none
toy_previous p1 = some p0

abbrev toy_onward : Place → List Place
toy_onward s0 = s0 ∷ s1 ∷ s2 ∷ []
toy_onward s1 = s1 ∷ s2 ∷ []
toy_onward s2 = s2 ∷ []
toy_onward t0 = t0 ∷ []
toy_onward t1 = t1 ∷ t2 ∷ []
toy_onward t2 = t2 ∷ []
toy_onward w0 = w0 ∷ w1 ∷ []
toy_onward w1 = w1 ∷ []
toy_onward p0 = p0 ∷ p1 ∷ []
toy_onward p1 = p1 ∷ []

abbrev toy_backward : Place → List Place
toy_backward s0 = s0 ∷ []
toy_backward s1 = s1 ∷ s0 ∷ []
toy_backward s2 = s2 ∷ s1 ∷ s0 ∷ []
toy_backward t0 = t0 ∷ []
toy_backward t1 = t1 ∷ []
toy_backward t2 = t2 ∷ t1 ∷ []
toy_backward w0 = w0 ∷ []
toy_backward w1 = w1 ∷ w0 ∷ []
toy_backward p0 = p0 ∷ []
toy_backward p1 = p1 ∷ p0 ∷ []

abbrev toy_parent : Place → Option Place
toy_parent s0 = none
toy_parent s1 = none
toy_parent s2 = none
toy_parent t0 = some w0
toy_parent t1 = some w1
toy_parent t2 = some w1
toy_parent w0 = none
toy_parent w1 = none
toy_parent p0 = none
toy_parent p1 = none

abbrev toy_daughter1 : Place → Option Place
toy_daughter1 s0 = none
toy_daughter1 s1 = none
toy_daughter1 s2 = none
toy_daughter1 t0 = none
toy_daughter1 t1 = none
toy_daughter1 t2 = none
toy_daughter1 w0 = some t0
toy_daughter1 w1 = some t1
toy_daughter1 p0 = none
toy_daughter1 p1 = none

abbrev toy_daughtern : Place → Option Place
toy_daughtern s0 = none
toy_daughtern s1 = none
toy_daughtern s2 = none
toy_daughtern t0 = none
toy_daughtern t1 = none
toy_daughtern t2 = none
toy_daughtern w0 = some t0
toy_daughtern w1 = some t2
toy_daughtern p0 = none
toy_daughtern p1 = none

abbrev toy_first : Place → Option Place
toy_first p0 = some p0
toy_first p1 = some p0
toy_first other = some other

abbrev toy_last : Place → Option Place
toy_last p0 = some p1
toy_last p1 = some p1
toy_last other = some other

abbrev toy_relation : String → Place → Option Place
toy_relation relation p =
    if str_eq relation "Syllable"
    then in_syllable p
    else if str_eq relation "SylStructure"
    then in_structure p
    else if str_eq relation "Phrase"
    then in_phrase p
    else none

-- The first and the third syllable are stressed.
abbrev toy : Items
toy = record {
  Item = Place;
  same = λ p q. code p == code q;
  item_name = λ p. "a";
  stress = λ p. if code p == 1 then 0 else 1;
  as_relation = toy_relation;
  inext = toy_next;
  iprev = toy_previous;
  parent = toy_parent;
  daughter1 = toy_daughter1;
  daughter2 = λ p. none;
  daughtern = toy_daughtern;
  first = toy_first;
  last = toy_last;
  onward = toy_onward;
  backward = toy_backward;
}

toy_onward_lem : (p : Place) → toy_onward p ≡ p ∷ run toy_onward (toy_next p)
toy_onward_lem s0 = refl
toy_onward_lem s1 = refl
toy_onward_lem s2 = refl
toy_onward_lem t0 = refl
toy_onward_lem t1 = refl
toy_onward_lem t2 = refl
toy_onward_lem w0 = refl
toy_onward_lem w1 = refl
toy_onward_lem p0 = refl
toy_onward_lem p1 = refl

toy_backward_lem : (p : Place) → toy_backward p ≡ p ∷ run toy_backward (toy_previous p)
toy_backward_lem s0 = refl
toy_backward_lem s1 = refl
toy_backward_lem s2 = refl
toy_backward_lem t0 = refl
toy_backward_lem t1 = refl
toy_backward_lem t2 = refl
toy_backward_lem w0 = refl
toy_backward_lem w1 = refl
toy_backward_lem p0 = refl
toy_backward_lem p1 = refl

toy_same_lem : (p : Place) → (code p == code p) ≡ true
toy_same_lem s0 = refl
toy_same_lem s1 = refl
toy_same_lem s2 = refl
toy_same_lem t0 = refl
toy_same_lem t1 = refl
toy_same_lem t2 = refl
toy_same_lem w0 = refl
toy_same_lem w1 = refl
toy_same_lem p0 = refl
toy_same_lem p1 = refl

toy-Laws : Laws toy
toy-Laws = record {
  onward_lem = toy_onward_lem;
  backward_lem = toy_backward_lem;
  same_lem = toy_same_lem;
}

-- The third syllable, with the two before it.
ff_syl_in-ff_syl_out_example :
    (ff_syl_in toy s2 ≡ 2)
    × (ff_syl_out toy s2 ≡ 0)
    × (ff_ssyl_in_modified_version toy s2 ≡ 1)
    × (ff_ssyl_in toy s2 ≡ 0)
    × (ff_ssyl_out toy s2 ≡ 0)
    × (ff_asyl_in_modified_version toy s2 ≡ 0)
    × (ff_asyl_in toy s2 ≡ 0)
    × (ff_asyl_out toy s2 ≡ 0)
unfolding fsyl lsyl ff_syl_accented
ff_syl_in-ff_syl_out_example =
    ff_syl_in-ff_syl_out toy toy-Laws s2 s2 s0 s2 (s0 ∷ s1 ∷ []) [] [] [] refl refl refl refl refl
      (refl, (refl, (refl, tt))) refl
