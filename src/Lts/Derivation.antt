-- ===== src/Lts/Derivation.antt =====
-- What applying rules means, independent of the interpreter of lts_rules.cc: which rule applies
-- where, and the rewriting of a word by the first rule that applies.
use speech_synthesis_system.Base.{
  String, ◌≡◌, ◌≢◌, true, false, List, [], ◌∷◌, ◌++◌, reverse, str_eq, All, Outcome, ok, err,
}
use speech_synthesis_system.Lts.Context.{Symbols, Sets, item_match}
use speech_synthesis_system.Lts.Language.{Element, print, Matches}
use speech_synthesis_system.Lts.Deciding.{IsSound}
use speech_synthesis_system.Lts.Rules.{LtsError, no_rule_matches, Rule}

-- A rule by its parts. The elements of `left` stand nearest to the centre first.
pub record RuleSpec : Type 0 where
  pub left : List Element
  pub centre : Symbols
  pub right : List Element
  pub rhs : Symbols

abbrev pub compile : RuleSpec → Rule
compile r = record { lc = print r.left; centre = r.centre; rc = print r.right; rhs = r.rhs }

-- The symbols fit the items one by one.
abbrev pub Fits : Sets → Symbols → Symbols → Type 0
Fits sets [] [] = Unit
Fits sets (c ∷ seg) (x ∷ xs) = (item_match sets c x ≡ true) × Fits sets seg xs
Fits sets _ _ = ⊥

-- A rule has a centre, and no item of it stands for the end of the symbols.
pub record IsSoundRule (nil_name : String) (sets : Sets) (r : RuleSpec) : Type 0 where
  pub left_sound : All (IsSound nil_name sets) r.left
  pub right_sound : All (IsSound nil_name sets) r.right
  pub centre_sound : All (λ x. item_match sets nil_name x ≡ false) r.centre
  pub has_centre : r.centre ≢ []

-- The rule rewrites the symbols `seg` in front of `rest`, behind the reversed left context `lc`.
pub record Rewrites (sets : Sets) (r : RuleSpec) (lc remainder seg rest : Symbols) : Type 0 where
  pub split : remainder ≡ seg ++ rest
  pub fits : Fits sets seg r.centre
  pub more : rest ≢ []
  pub right_matches : Matches sets r.right rest
  pub left_matches : Matches sets r.left lc

abbrev pub Applies : Sets → RuleSpec → Symbols → Symbols → Type 0
Applies sets r lc remainder =
    (seg : Symbols) × (rest : Symbols) × Rewrites sets r lc remainder seg rest

-- `r` is the first of the rules that applies.
pub data First (sets : Sets) (lc remainder : Symbols)
    : List RuleSpec → RuleSpec → Symbols → Symbols → Type 0 where
  here :
      {r : RuleSpec} {rs : List RuleSpec} {seg rest : Symbols}
      → Rewrites sets r lc remainder seg rest
      → First sets lc remainder (r ∷ rs) r seg rest
  later :
      {r q : RuleSpec} {rs : List RuleSpec} {seg rest : Symbols}
      → ¬ Applies sets q lc remainder
      → First sets lc remainder rs r seg rest
      → First sets lc remainder (q ∷ rs) r seg rest

-- The symbols up to the first `#` are rewritten to `out`, from left to right.
pub data Derives (sets : Sets) (rules : List RuleSpec) : Symbols → Symbols → Symbols → Type 0 where
  stop : {lc rest : Symbols} → Derives sets rules lc ("#" ∷ rest) []
  step :
      {r : RuleSpec} {lc rest seg out : Symbols} {c : String} {cs : Symbols}
      → str_eq "#" c ≡ false
      → First sets lc (c ∷ cs) rules r seg rest
      → Derives sets rules (reverse seg ++ lc) rest out
      → Derives sets rules lc (c ∷ cs) (r.rhs ++ out)

-- After some rewriting, no rule applies although `#` is not reached.
pub data Stuck (sets : Sets) (rules : List RuleSpec) : Symbols → Symbols → Type 0 where
  no_rule :
      {lc : Symbols} {c : String} {cs : Symbols}
      → str_eq "#" c ≡ false
      → All (λ r. ¬ Applies sets r lc (c ∷ cs)) rules
      → Stuck sets rules lc (c ∷ cs)
  onward :
      {r : RuleSpec} {lc rest seg : Symbols} {c : String} {cs : Symbols}
      → str_eq "#" c ≡ false
      → First sets lc (c ∷ cs) rules r seg rest
      → Stuck sets rules (reverse seg ++ lc) rest
      → Stuck sets rules lc (c ∷ cs)

-- The outcome of a word: its derivation, or the point where the rules give out, and nothing else.
abbrev pub Explains : Sets → List RuleSpec → Symbols → Symbols → Outcome LtsError Symbols → Type 0
Explains sets rules lc remainder (ok out) = Derives sets rules lc remainder out
Explains sets rules lc remainder (err no_rule_matches) = Stuck sets rules lc remainder
Explains sets rules lc remainder (err _) = ⊥
