-- ===== src/Lts/Lookup.antt =====
-- The registry of rule sets of lts_rules.cc, and a rule set from its definition to its use.
use speech_synthesis_system.Base.{
  String, ◌≡◌, inl, inr, refl, ap, ◌∙◌, List, [], ◌∷◌, ◌++◌, reverse, str_eq, All, map, none, some,
  ok, ◌>>=◌, arith, if◌then◌else◌, eq_iff, eq_refl, Bool-cases, Option-cases, reverse-cons,
  append_assoc, append-nil,
}
use speech_synthesis_system.Lts.Context.{Symbols, Sets}
use speech_synthesis_system.Lts.Rules.{Ruleset}
use speech_synthesis_system.Lts.Derivation.{RuleSpec, IsSoundRule, Explains}
use speech_synthesis_system.Lts.Applying.{compiled, apply-Explains}
use speech_synthesis_system.Lts.Reading.{IsWritten, rule_text, alphabet_of, make_ruleset-rule_text}
use speech_synthesis_system.Lts.Registry.{
  Registry, assoc_str, replace, add_ruleset, lts_def_ruleset, Word, word_symbols, find_ruleset,
  lts_list, lts_apply_ruleset,
}

assoc_str-replace :
    (k j : String) (rs : Ruleset) (l : Registry) (old : Ruleset)
    → assoc_str k l ≡ some old
    → assoc_str j (replace k rs l) ≡ (if str_eq j k then some rs else assoc_str j l)
unfolding assoc_str replace
assoc_str-replace k j rs [] old h = cc
assoc_str-replace k j rs ((n, r) ∷ l) old h =
    ground (arith, eq_iff k n, eq_iff j n, eq_iff j k, assoc_str-replace k j rs l old)

-- After a definition its name finds the new rule set, and every other name what it found before.
pub assoc_str-add_ruleset :
    (k j : String) (rs : Ruleset) (l : Registry)
    → assoc_str j (add_ruleset k rs l) ≡ (if str_eq j k then some rs else assoc_str j l)
unfolding add_ruleset
assoc_str-add_ruleset k j rs l = elim (Option-cases (assoc_str k l)) [
  | inl e ↦ rw (e, add_ruleset) (unfold assoc_str in refl)
  | inr (old, e) ↦ rw (e, add_ruleset) (assoc_str-replace k j rs l old e)
]

-- The names of a registry, in its order.
abbrev pub names : Registry → Symbols
names [] = []
names ((n, rs) ∷ l) = n ∷ names l

lts_list-names : (l : Registry) (acc : Symbols) → lts_list l acc ≡ reverse (names l) ++ acc
unfolding lts_list
lts_list-names [] acc = refl
lts_list-names ((n, rs) ∷ l) acc = lts_list-names l (n ∷ acc) ∙ simp (reverse-cons, append_assoc)

names-replace : (k : String) (rs : Ruleset) (l : Registry) → names (replace k rs l) ≡ names l
unfolding replace
names-replace k rs [] = refl
names-replace k rs ((n, r) ∷ l) = elim (Bool-cases (str_eq k n)) [
  | inl e ↦ rw e
  | inr e ↦ rw e (ap (λ (t : Symbols). n ∷ t) (names-replace k rs l))
]

-- `lts_list` gains a defined name at its end if the name is new, and stays as it is otherwise.
pub lts_list-add_ruleset :
    (k : String) (rs : Ruleset) (l : Registry)
    → lts_list (add_ruleset k rs l) []
      ≡ elim (assoc_str k l) [ none ↦ lts_list l [] ++ k ∷ [] | some old ↦ lts_list l [] ]
unfolding add_ruleset
lts_list-add_ruleset k rs l = elim (Option-cases (assoc_str k l)) [
  | inl e ↦ rw (e, add_ruleset) (simp (lts_list-names, reverse-cons, append-nil))
  | inr (old, e) ↦ rw (e, add_ruleset) (simp (lts_list-names, names-replace))
]

assoc_str-add_self :
    (k : String) (rs : Ruleset) (l : Registry) → assoc_str k (add_ruleset k rs l) ≡ some rs
assoc_str-add_self k rs l = simp (assoc_str-add_ruleset, eq_refl)

find_ruleset-add_ruleset :
    (k : String) (rs : Ruleset) (l : Registry) → find_ruleset k (add_ruleset k rs l) ≡ ok rs
unfolding find_ruleset
find_ruleset-add_ruleset k rs l = rw (assoc_str-add_self k rs l, find_ruleset)

-- From the text of rules to the pronunciation of a word: the definition succeeds, and applying the
-- rule set by its name has the outcome that the rules mean.
pub lts_apply_ruleset-Explains :
    (nil_name name : String) (explode : String → Symbols) (sets : Sets) (rules : List RuleSpec)
    (l : Registry) (word : Word)
    → All IsWritten rules
    → All (IsSoundRule nil_name sets) rules
    → Explains sets rules ("#" ∷ []) (word_symbols explode word ++ "#" ∷ []) (do
      (n, l') ← lts_def_ruleset name sets (map rule_text rules) l
      lts_apply_ruleset nil_name explode word n l')
unfolding lts_def_ruleset lts_apply_ruleset
lts_apply_ruleset-Explains nil_name name explode sets rules l word w s =
    rw (make_ruleset-rule_text name sets rules w) (
      rw (find_ruleset-add_ruleset name (compiled name (alphabet_of rules []) sets rules) l) (
        apply-Explains nil_name name (alphabet_of rules []) sets rules s
          (word_symbols explode word)))
