-- ===== src/Lts/Registry.antt =====
-- The list of rule sets of lts_rules.cc and the LISP functions over it: `lts_def_ruleset`,
-- `lts_in_alphabet`, `lts_list`, `lts_apply_ruleset`.
use speech_synthesis_system.Base.{
  String, Bool, Option, none, some, Outcome, ok, err, ◌>>=◌, List, [], ◌∷◌, str_eq, if◌then◌else◌,
}
use speech_synthesis_system.Lts.Context.{Symbols, Sets}
use speech_synthesis_system.Lts.Rules.{LtsError, no_such_ruleset, Ruleset, apply, check_alpha}
use speech_synthesis_system.Lts.Normalize.{make_ruleset}

-- `lts_rules_list`
abbrev pub Registry : Type 0
Registry = List (String × Ruleset)

-- `siod_assoc_str`
unfoldable pub assoc_str : String → Registry → Option Ruleset
assoc_str name [] = none
assoc_str name ((n, rs) ∷ l) = if str_eq name n then some rs else assoc_str name l

-- `setcar(cdr(lpair), siod(rs))` on the first pair of that name
unfoldable pub replace : String → Ruleset → Registry → Registry
replace name rs [] = []
replace name rs ((n, old) ∷ l) = if str_eq name n then (n, rs) ∷ l else (n, old) ∷ replace name rs l

unfoldable pub add_ruleset : String → Ruleset → Registry → Registry
unfolding assoc_str replace
add_ruleset name rs l = elim (assoc_str name l) [
  | none ↦ (name, rs) ∷ l
  | some old ↦ replace name rs l
]

-- The new list of rule sets, beside the name that is returned.
unfoldable pub lts_def_ruleset :
    String → Sets → List Symbols → Registry → Outcome LtsError (String × Registry)
unfolding make_ruleset add_ruleset
lts_def_ruleset name sets rules l = do
  rs ← make_ruleset name rules sets
  ok (name, add_ruleset name rs l)

-- A word is an atom, which `symbolexplode` of the LISP library takes apart, or a cell.
pub data Word : Type 0 where
  atom : String → Word
  cell : String → Symbols → Word

abbrev pub word_symbols : (String → Symbols) → Word → Symbols
word_symbols explode (atom s) = explode s
word_symbols explode (cell x xs) = x ∷ xs

unfoldable pub find_ruleset : String → Registry → Outcome LtsError Ruleset
unfolding assoc_str
find_ruleset name l = elim (assoc_str name l) [ none ↦ err no_such_ruleset | some rs ↦ ok rs ]

unfoldable pub lts_in_alphabet :
    (String → Symbols) → Word → String → Registry → Outcome LtsError Bool
unfolding find_ruleset check_alpha
lts_in_alphabet explode word name l = do
  rs ← find_ruleset name l
  ok (check_alpha rs (word_symbols explode word))

-- Each name is put in front of those before it.
unfoldable pub lts_list : Registry → Symbols → Symbols
lts_list [] rulesets = rulesets
lts_list ((n, rs) ∷ l) rulesets = lts_list l (n ∷ rulesets)

unfoldable pub lts_apply_ruleset :
    String → (String → Symbols) → Word → String → Registry → Outcome LtsError Symbols
unfolding find_ruleset apply
lts_apply_ruleset nil_name explode word name l = do
  rs ← find_ruleset name l
  apply nil_name rs (word_symbols explode word)
