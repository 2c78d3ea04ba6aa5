-- ===== src/Lts/Normalize.antt =====
-- Reading of rules in lts_rules.cc: `normalize`, `update_alphabet`, `fix_postfix_ops`, and the
-- constructor `LTS_Ruleset`.
use speech_synthesis_system.Base.{
  String, Bool, true, false, ◌||◌, not, Outcome, ok, err, ◌>>=◌, List, [], ◌∷◌, reverse, str_eq,
  if◌then◌else◌,
}
use speech_synthesis_system.Lts.Context.{Symbols, Sets, member_str}
use speech_synthesis_system.Lts.Rules.{LtsError, misparsed_rule, null_write, Rule, Ruleset, is_nil}

unfoldable pub is_postfix : String → Bool
is_postfix s = str_eq "*" s || str_eq "+" s

-- An operator at the end has nothing to be swapped with: `CAR(cdr(p)) = q` writes through NIL.
unfoldable pub fix_postfix_ops : Symbols → Outcome LtsError Symbols
unfolding is_postfix
fix_postfix_ops [] = ok []
fix_postfix_ops (x ∷ []) = if is_postfix x then err null_write else ok (x ∷ [])
fix_postfix_ops (x ∷ y ∷ rest) =
    let swapped = (do r ← fix_postfix_ops rest; ok (y ∷ x ∷ r)) in
    let kept = (do r ← fix_postfix_ops (y ∷ rest); ok (x ∷ r)) in
    if is_postfix x then swapped else kept

-- The loop variables `state`, `lc`, `t`, `rc` and `rhs` of one rule.
pub data State : Type 0 where
  in_left in_centre in_right in_result : State

pub record Scan : Type 0 where
  pub state : State
  pub lc : Symbols
  pub t : Symbols
  pub rc : Symbols
  pub rhs : Symbols

-- One symbol, and the loop over those behind it. `=` breaks out of the loop, so that no symbol is
-- read in the state `in_result`.
unfoldable pub scan_symbol :
    State
    → String
    → Symbols
    → Symbols
    → Symbols
    → Symbols
    → (State → Symbols → Symbols → Symbols → Outcome LtsError Scan)
    → Outcome LtsError Scan
scan_symbol in_left c cs lc t rc next =
    let open_centre = next in_centre lc t rc in
    let more = next in_left (c ∷ lc) t rc in if str_eq "[" c then open_centre else more
scan_symbol in_centre c cs lc t rc next =
    let close_centre = next in_right lc t rc in
    let more = next in_centre lc (c ∷ t) rc in if str_eq "]" c then close_centre else more
scan_symbol in_right c cs lc t rc next =
    let more = next in_right lc t (c ∷ rc) in
    if str_eq "=" c
    then ok (record { state = in_result; lc = lc; t = t; rc = rc; rhs = cs })
    else more
scan_symbol in_result c cs lc t rc next = err misparsed_rule

unfoldable pub scan : Symbols → State → Symbols → Symbols → Symbols → Outcome LtsError Scan
unfolding scan_symbol
scan [] st lc t rc = ok (record { state = st; lc = lc; t = t; rc = rc; rhs = [] })
scan (c ∷ cs) st lc t rc = scan_symbol st c cs lc t rc (scan cs)

unfoldable pub update_alphabet : Symbols → Symbols → Symbols
unfolding member_str
update_alphabet [] alphabet = alphabet
update_alphabet (p ∷ ps) alphabet =
    update_alphabet ps (if member_str p alphabet then alphabet else p ∷ alphabet)

unfoldable pub is_result : State → Bool
is_result in_result = true
is_result _ = false

-- What the loop does with one scanned rule: it has to have ended in `rhs`, with a centre.
unfoldable pub finish_rule : Scan → Outcome LtsError Rule
unfolding is_result is_nil fix_postfix_ops
finish_rule s = if not (is_result s.state) || is_nil s.t then err misparsed_rule else do
  lc ← fix_postfix_ops s.lc
  ok (record { lc = lc; centre = reverse s.t; rc = reverse s.rc; rhs = s.rhs })

-- `normalize`, with `p_alphabet` passed on.
unfoldable pub normalize : List Symbols → Symbols → Outcome LtsError (List Rule × Symbols)
unfolding scan finish_rule update_alphabet
normalize [] alphabet = ok ([], alphabet)
normalize (r ∷ rs) alphabet = do
  s ← scan r in_left [] [] []
  rule ← finish_rule s
  (rules, alphabet') ← normalize rs (update_alphabet s.t alphabet)
  ok (rule ∷ rules, alphabet')

-- The constructor.
unfoldable pub make_ruleset : String → List Symbols → Sets → Outcome LtsError Ruleset
unfolding normalize
make_ruleset name rules sets = do
  (normal, alphabet) ← normalize rules []
  ok (record { name = name; rules = normal; alphabet = alphabet; sets = sets })
