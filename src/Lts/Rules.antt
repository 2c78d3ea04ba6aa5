-- ===== src/Lts/Rules.antt =====
-- The rule interpreter of lts_rules.cc: `this_match`, `match_rule`, `rewrite`, `apply`, `check_alpha`.
use speech_synthesis_system.Base.{
  ℕ, zero, suc, ◌+◌, ◌-◌, String, Bool, true, false, Option, none, some, Outcome, ok, err, ◌>>=◌,
  List, [], ◌∷◌, ◌++◌, reverse, tail, str_eq, length, head?, if◌then◌else◌,
}
use speech_synthesis_system.Lts.Context.{
  Symbols, Sets, member_str, item_match, name_of, context_match,
}

-- `no_return` stands for a call that never returns; `null_write` for a store through NIL.
pub data LtsError : Type 0 where
  misparsed_rule null_write no_rule_matches no_such_ruleset no_return : LtsError

-- A rule in the order of `LTS_LC`, `LTS_THIS`, `LTS_RC` and `LTS_RHS`.
pub record Rule : Type 0 where
  pub lc : Symbols
  pub centre : Symbols
  pub rc : Symbols
  pub rhs : Symbols

pub record Ruleset : Type 0 where
  pub name : String
  pub rules : List Rule
  pub alphabet : Symbols
  pub sets : Sets

-- `&&` of C over verdicts.
unfoldable pub and_also : Option Bool → Option Bool → Option Bool
and_also none s = none
and_also (some true) s = s
and_also (some false) s = some false

unfoldable pub is_nil : Symbols → Bool
is_nil [] = true
is_nil (x ∷ xs) = false

-- More than the steps of a matching that returns.
abbrev pub context_fuel : Symbols → Symbols → ℕ
context_fuel acontext rcontext = suc (length acontext + length rcontext)

module _ (nil_name : String) where
  -- `[]` is the NIL of a mismatch, and that of a centre that uses up the symbols.
  unfoldable pub this_match : Sets → Symbols → Symbols → Symbols
  unfolding name_of
  this_match sets a [] = a
  this_match sets a (r ∷ rs) =
      if item_match sets (name_of nil_name (head? a)) r then this_match sets (tail a) rs else []

  -- The new `*rest`, and the verdict.
  unfoldable pub match_rule : Sets → Symbols → Symbols → Rule → Symbols × Option Bool
  unfolding this_match context_match and_also is_nil
  match_rule sets lc remainder rule =
      let rest = this_match sets remainder rule.centre in
      let right = context_match nil_name (context_fuel rest rule.rc) sets rest rule.rc in
      let left = context_match nil_name (context_fuel lc rule.lc) sets lc rule.lc in
      (rest, if is_nil rest then some false else and_also right left)

  unfoldable pub rewrite :
      Sets → Symbols → Symbols → List Rule → Outcome LtsError (Symbols × Symbols)
  unfolding match_rule
  rewrite sets lc remainder [] = err no_rule_matches
  rewrite sets lc remainder (rule ∷ rules) =
      let (rest, verdict) = match_rule sets lc remainder rule in
      elim verdict [
        | none ↦ err no_return
        | some b ↦ elim b [ true ↦ ok (rule.rhs, rest) | false ↦ rewrite sets lc remainder rules ]
      ]

  -- The inner `for` loop of `apply`: `n` symbols go over to the left context.
  unfoldable pub move : ℕ → Symbols → Symbols → Symbols
  unfolding name_of
  move zero l lc = lc
  move (suc n) l lc = move n (tail l) (name_of nil_name (head? l) ∷ lc)

  unfoldable pub apply_loop : ℕ → Ruleset → Symbols → Symbols → Symbols → Outcome LtsError Symbols
  unfolding rewrite move name_of
  apply_loop zero rs lc remainder result = err no_return
  apply_loop (suc f) rs lc remainder result =
      let rest = do
        (r, new_remainder) ← rewrite rs.sets lc remainder rs.rules
        apply_loop f rs (move (length remainder - length new_remainder) remainder lc) new_remainder
            (reverse r ++ result)
      in if str_eq "#" (name_of nil_name (head? remainder)) then ok (reverse result) else rest

  -- `apply`, the `#` at both ends added.
  unfoldable pub apply : Ruleset → Symbols → Outcome LtsError Symbols
  unfolding apply_loop
  apply rs word = apply_loop (suc (length word)) rs ("#" ∷ []) (word ++ "#" ∷ []) []

unfoldable pub check_alpha : Ruleset → Symbols → Bool
unfolding member_str
check_alpha rs [] = true
check_alpha rs (p ∷ ps) = if member_str p rs.alphabet then check_alpha rs ps else false
