-- ===== src/Builtin/Breaks.antt =====
-- Functions of ff.cc on the breaks behind words and syllables, the place of a syllable in its word, and the
-- accents of a syllable.
use speech_synthesis_system.Base.{
  ℕ, String, Bool, ◌||◌, Option, none, some, List, [], ◌∷◌, str_eq, ◌==◌, if◌then◌else◌,
}
use speech_synthesis_system.Builtin.Items.{Items, of_item, run, exists}

-- A value is a number or a text.
pub data Value : Type 0 where
  int : ℕ → Value
  text : String → Value

module _ (u : Items) where
  unfoldable pub ff_position_type : u.Item → String
  ff_position_type i = elim (u.as_relation "SylStructure" i) [
    | none ↦ "single"
    | some nn ↦
        if exists (u.inext nn)
        then (if exists (u.iprev nn) then "mid" else "initial")
        else (if exists (u.iprev nn) then "final" else "single")
  ]

  -- The break of the last word of a phrase, by the phrase's name.
  unfoldable pub break_of : String → Value
  break_of phrase =
      if str_eq phrase "BB"
      then int 4
      else if str_eq phrase "B"
      then int 3
      else if str_eq phrase "mB"
      then int 2
      else text phrase

  unfoldable pub ff_word_break : u.Item → Value
  unfolding break_of
  ff_word_break w = elim (u.as_relation "Phrase" w) [
    | none ↦ int 1
    | some nn ↦
        if exists (u.inext nn)
        then int 1
        else elim (u.parent nn) [ none ↦ int 1 | some p ↦ break_of (u.item_name p) ]
  ]

  unfoldable pub ff_syl_break : u.Item → Value
  unfolding ff_word_break
  ff_syl_break i = elim (u.as_relation "SylStructure" i) [
    | none ↦ int 1
    | some nn ↦
        if exists (u.inext nn)
        then int 0
        else elim (u.parent nn) [ none ↦ int 1 | some w ↦ ff_word_break w ]
  ]

  -- `int_of` is the library's reading of a text as a number, where a value is compared with one.
  unfoldable pub promoted : (String → ℕ) → Value → Value
  promoted int_of (int n) = if n == 3 || n == 2 then int 4 else int n
  promoted int_of (text t) = if int_of t == 3 || int_of t == 2 then int 4 else text t

  unfoldable pub ff_old_syl_break : (String → ℕ) → u.Item → Value
  unfolding ff_word_break promoted
  ff_old_syl_break int_of i = elim (u.as_relation "SylStructure" i) [
    | none ↦ int 1
    | some nn ↦
        if exists (u.inext nn)
        then int 0
        else elim (u.parent nn) [ none ↦ int 1 | some w ↦ promoted int_of (ff_word_break w) ]
  ]

  unfoldable pub ff_syl_accented : u.Item → ℕ
  ff_syl_accented i = if exists (of_item u.daughter1 (u.as_relation "Intonation" i)) then 1 else 0

  -- The name of the first item that passes a test.
  unfoldable pub name_loop : (String → Bool) → List u.Item → String
  name_loop test [] = "NONE"
  name_loop test (p ∷ ps) =
      let rest = name_loop test ps in if test (u.item_name p) then u.item_name p else rest

  -- `contains` is that of the string library.
  unfoldable pub ff_tobi_accent : (String → String → Bool) → u.Item → String
  unfolding name_loop
  ff_tobi_accent contains i =
      name_loop (λ l. contains l "*")
        (run u.onward (of_item u.daughter1 (u.as_relation "Intonation" i)))

  unfoldable pub ff_tobi_endtone : (String → String → Bool) → u.Item → String
  unfolding name_loop
  ff_tobi_endtone contains i =
      name_loop (λ l. contains l "%" || contains l "-")
        (run u.onward (of_item u.daughter1 (u.as_relation "Intonation" i)))

  abbrev pub name_or_none : Option u.Item → String
  name_or_none none = "NONE"
  name_or_none (some p) = u.item_name p

  unfoldable pub ff_syl_accent : u.Item → String
  ff_syl_accent i =
      let nn = u.as_relation "Intonation" i in
      if exists (of_item u.daughter2 nn) then "multi" else name_or_none (of_item u.daughter1 nn)
