-- ===== src/Syllables/Marks.antt =====
-- The tests on the characters of a phone's name in lex_aux.cc: `strchr` of the first one, and `v_stress`.
use Prim.Native.Char.{Char, code}
use Prim.Native.String.{[], ◌∷◌}
use speech_synthesis_system.Base.{
  ℕ, ◌-◌, String, Bool, true, false, ◌||◌, Option, none, some, ◌==◌, if◌then◌else◌,
}

unfoldable pub has_char : Char → String → Bool
has_char c [] = false
has_char c (d ∷ s) = code c == code d || has_char c s

-- `strchr` finds the NUL at the end of the vowels when the name is empty.
unfoldable pub starts_as_vowel : String → Bool
unfolding has_char
starts_as_vowel [] = true
starts_as_vowel (c ∷ s) = has_char c "aiueoAIUEO"

-- The name before its last character, and that digit, where it is a `0`, `1` or `2`.
unfoldable cut_mark : String → Option (String × ℕ)
cut_mark [] = none
cut_mark (c ∷ []) =
    if code c == 48 || (code c == 49 || code c == 50) then some ([], code c - 48) else none
cut_mark (c ∷ d ∷ s) = elim (cut_mark (d ∷ s)) [ none ↦ none | some (t, n) ↦ some (c ∷ t, n) ]

-- The name without its stress, and the stress, 0 where it has none.
unfoldable pub v_stress : String → String × ℕ
unfolding cut_mark
v_stress [] = ([], 0)
v_stress (c ∷ []) = (c ∷ [], 0)
v_stress (c ∷ d ∷ s) = elim (cut_mark (c ∷ d ∷ s)) [ none ↦ (c ∷ d ∷ s, 0) | some marked ↦ marked ]
