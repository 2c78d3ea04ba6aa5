-- ===== src/Builtin/Counts.antt =====
-- Functions of ff.cc that count from a syllable to the breaks and accents around it: `ff_syl_in`,
-- `ff_syl_out`, `ff_ssyl_in` and others.
use speech_synthesis_system.Base.{
  ℕ, ◌+◌, Bool, true, false, Option, none, some, List, [], ◌∷◌, str_eq, ◌==◌, if◌then◌else◌,
}
use speech_synthesis_system.Builtin.Items.{Items, of_item, run}
use speech_synthesis_system.Builtin.Sizes.{is_same, steps_to}
use speech_synthesis_system.Builtin.Breaks.{ff_syl_accented}

module _ (u : Items) where
  -- The word of the syllable, among the words of its phrase.
  abbrev pub word_of : u.Item → Option u.Item
  word_of i = of_item (u.as_relation "Phrase") (of_item u.parent (u.as_relation "SylStructure" i))

  -- The first and the last syllable in the phrase.
  unfoldable pub fsyl : u.Item → Option u.Item
  fsyl i =
      of_item (u.as_relation "Syllable")
        (of_item u.daughter1 (of_item (u.as_relation "SylStructure") (of_item u.first (word_of i))))

  unfoldable pub lsyl : u.Item → Option u.Item
  lsyl i =
      of_item (u.as_relation "Syllable")
        (of_item u.daughtern (of_item (u.as_relation "SylStructure") (of_item u.last (word_of i))))

  abbrev pub is_same_item : Option u.Item → Option u.Item → Bool
  is_same_item none none = true
  is_same_item (some p) none = false
  is_same_item none (some q) = false
  is_same_item (some p) (some q) = u.same p q

  unfoldable pub ff_syl_in : u.Item → ℕ
  unfolding steps_to fsyl
  ff_syl_in i = steps_to u (fsyl i) (run u.backward (u.as_relation "Syllable" i)) 0

  unfoldable pub ff_syl_out : u.Item → ℕ
  unfolding steps_to lsyl
  ff_syl_out i = steps_to u (lsyl i) (run u.onward (u.as_relation "Syllable" i)) 0

  abbrev pub is_stressed : u.Item → Bool
  is_stressed p = u.stress p == 1

  abbrev pub is_accented : u.Item → Bool
  is_accented p = ff_syl_accented u p == 1

  abbrev pub plus_if : Bool → ℕ → ℕ
  plus_if true count = count + 1
  plus_if false count = count

  -- The loops that end before the item `stop`, and those that end with it.
  unfoldable pub count_before : (u.Item → Bool) → Option u.Item → List u.Item → ℕ → ℕ
  count_before test stop [] count = count
  count_before test stop (p ∷ ps) count =
      let rest = count_before test stop ps (plus_if (test p) count) in
      if is_same u stop p then count else rest

  unfoldable pub count_with : (u.Item → Bool) → Option u.Item → List u.Item → ℕ → ℕ
  count_with test stop [] count = count
  count_with test stop (p ∷ ps) count =
      let rest = count_with test stop ps (plus_if (test p) count) in
      if is_same u stop p then plus_if (test p) count else rest

  unfoldable pub in_before : (u.Item → Bool) → u.Item → ℕ
  unfolding count_before fsyl
  in_before test i =
      let nn = u.as_relation "Syllable" i in
      let count = count_before test (fsyl i) (run u.backward (of_item u.iprev nn)) 0 in
      if is_same_item nn (fsyl i) then 0 else count

  unfoldable pub in_with : (u.Item → Bool) → u.Item → ℕ
  unfolding count_with fsyl
  in_with test i =
      let nn = u.as_relation "Syllable" i in
      let count = count_with test (fsyl i) (run u.backward (of_item u.iprev nn)) 0 in
      if is_same_item nn (fsyl i) then 0 else count

  unfoldable pub out_with : (u.Item → Bool) → u.Item → ℕ
  unfolding count_with lsyl
  out_with test i =
      let nn = u.as_relation "Syllable" i in
      let count = count_with test (lsyl i) (run u.onward (of_item u.inext nn)) 0 in
      if is_same_item nn (lsyl i) then 0 else count

  abbrev pub ff_ssyl_in : u.Item → ℕ
  ff_ssyl_in i = in_before is_stressed i

  abbrev pub ff_ssyl_in_modified_version : u.Item → ℕ
  ff_ssyl_in_modified_version i = in_with is_stressed i

  abbrev pub ff_ssyl_out : u.Item → ℕ
  ff_ssyl_out i = out_with is_stressed i

  abbrev pub ff_asyl_in : u.Item → ℕ
  ff_asyl_in i = in_before is_accented i

  abbrev pub ff_asyl_in_modified_version : u.Item → ℕ
  ff_asyl_in_modified_version i = in_with is_accented i

  abbrev pub ff_asyl_out : u.Item → ℕ
  ff_asyl_out i = out_with is_accented i

  -- The items before the first that passes the test.
  unfoldable pub steps_until : (u.Item → Bool) → List u.Item → ℕ → ℕ
  steps_until test [] count = count
  steps_until test (p ∷ ps) count =
      let rest = steps_until test ps (count + 1) in if test p then count else rest

  unfoldable pub ff_last_accent : u.Item → ℕ
  unfolding steps_until
  ff_last_accent i =
      steps_until is_accented (run u.backward (of_item u.iprev (u.as_relation "Syllable" i))) 0

  unfoldable pub ff_next_accent : u.Item → ℕ
  unfolding steps_until
  ff_next_accent i =
      steps_until is_accented (run u.onward (of_item u.inext (u.as_relation "Syllable" i))) 0

  unfoldable pub ff_sub_phrases : u.Item → ℕ
  unfolding steps_until
  ff_sub_phrases i =
      let word = of_item u.parent (u.as_relation "SylStructure" i) in
      let nn = of_item u.parent (of_item (u.as_relation "Phrase") word) in
      steps_until (λ p. str_eq (u.item_name p) "BB") (run u.backward (of_item u.iprev nn)) 0
