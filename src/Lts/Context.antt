-- ===== src/Lts/Context.antt =====
-- Matching of rule contexts in lts_rules.cc: `item_match` and `context_match`.
use speech_synthesis_system.Base.{
  ℕ, zero, suc, String, Bool, true, false, Option, none, some, List, [], ◌∷◌, tail, str_eq, head?,
  if◌then◌else◌,
}

abbrev pub Symbols : Type 0
Symbols = List String

-- `p_sets`: each set's name with its members
abbrev pub Sets : Type 0
Sets = List (String × Symbols)

-- `siod_member_str(s, l) != NIL`
unfoldable pub member_str : String → Symbols → Bool
member_str s [] = false
member_str s (x ∷ xs) = if str_eq s x then true else member_str s xs

unfoldable pub assq : String → Sets → Option Symbols
assq s [] = none
assq s ((k, v) ∷ l) = if str_eq s k then some v else assq s l

in_set : String → Option Symbols → Bool
in_set s none = false
in_set s (some members) = member_str s members

unfoldable pub item_match : Sets → String → String → Bool
unfolding in_set member_str assq
item_match sets actual item = if str_eq actual item then true else in_set actual (assq item sets)

-- `cdr(r) != NIL && streq(op, car(cdr(r)))`, given `cdr(r)`
unfoldable pub starts_by : String → Symbols → Bool
starts_by op [] = false
starts_by op (x ∷ xs) = str_eq op x

-- `||` of C over verdicts; `none` is a call that does not return.
unfoldable pub or_else : Option Bool → Option Bool → Option Bool
or_else none s = none
or_else (some true) s = some true
or_else (some false) s = s

module _ (nil_name : String) where
  unfoldable pub name_of : Option String → String
  name_of none = nil_name
  name_of (some s) = s

  unfoldable pub context_match : ℕ → Sets → Symbols → Symbols → Option Bool
  unfolding starts_by or_else name_of item_match member_str assq
  context_match zero sets acontext rcontext = none
  context_match (suc f) sets acontext [] = some true
  context_match (suc f) sets acontext (r ∷ rest) =
      let matches = item_match sets (name_of (head? acontext)) r in
      let without = context_match f sets acontext (tail rest) in
      let once = context_match f sets acontext (r ∷ tail rest) in
      let again = context_match f sets (tail acontext) (r ∷ rest) in
      let one_or_more = context_match f sets (tail acontext) (r ∷ "*" ∷ tail rest) in
      let onward = context_match f sets (tail acontext) rest in
      if starts_by "*" rest
      then or_else without (or_else once (if matches then again else some false))
      else if starts_by "+" rest
      then (if matches then one_or_more else some false)
      else if matches
      then onward
      else some false
