-- ===== src/Backoff/Rules.antt =====
-- `DiphoneBackoff`: its rules, `backoff` on two phone names, and the loop that backs off until the
-- voice has the diphone.
use speech_synthesis_system.Base.{
  ℕ, zero, suc, String, ◌≡◌, Bool, false, ◌&&◌, ◌||◌, not, List, [], ◌∷◌, Option, none, some,
  str_eq, if◌then◌else◌,
}

-- What the code uses of `EST_String` on diphone names: `cat(l, "_", r)`, `before("_")`, `after("_")`.
pub record DiphoneNames : Type 1 where
  pub join : String → String → String
  pub before : String → String
  pub after : String → String
  pub IsPhone : String → Type 0
  pub before_join : (l r : String) → IsPhone l → IsPhone r → before (join l r) ≡ l
  pub after_join : (l r : String) → IsPhone l → IsPhone r → after (join l r) ≡ r
  pub join_nonempty : (l r : String) → str_eq (join l r) "" ≡ false

-- An entry of `backofflist`: `nth(0)`, `nth(1)`, and the phones behind them.
pub record BackoffRule : Type 0 where
  pub head : String
  pub sub : String
  pub more : List String

abbrev pub default_match : String
default_match = "_"

-- The constructor: an entry of fewer than two names is ignored with a warning.
unfoldable pub load_rules : List (List String) → List BackoffRule
load_rules [] = []
load_rules ((head ∷ sub ∷ more) ∷ l) = record { head = head; sub = sub; more = more } ∷ load_rules l
load_rules (_ ∷ l) = load_rules l

-- The condition under which a rule replaces the phone.
unfoldable pub replaces : BackoffRule → String → Bool
replaces rule phone =
    str_eq rule.head phone || (str_eq rule.head default_match && not (str_eq phone rule.sub))

-- The `while` loop of `backoff`: the new `rl` and `rr`.
unfoldable pub backoff_phones : List BackoffRule → String → String → String × String
unfolding replaces
backoff_phones [] left right = (left, right)
backoff_phones (rule ∷ rules) left right =
    if replaces rule left
    then (rule.sub, right)
    else if replaces rule right
    then (left, rule.sub)
    else backoff_phones rules left right

module _ (names : DiphoneNames) where
  -- The empty name says that nothing has changed.
  unfoldable pub backoff : List BackoffRule → String → String → String
  unfolding backoff_phones
  backoff rules left right =
      let (rl, rr) = backoff_phones rules left right in
      if not (str_eq left rl) || not (str_eq right rr) then names.join rl rr else ""

  -- `while (diphone_name != Empty && !unitAvailable(diphone_name) && diphone_backoff_rules)`. A call
  -- that runs out of fuel is `none`.
  unfoldable pub backoff_loop :
      (String → Bool) → Option (List BackoffRule) → ℕ → String → String → String → Option String
  unfolding backoff
  backoff_loop available none fuel l r name = some name
  backoff_loop available (some rules) zero l r name = none
  backoff_loop available (some rules) (suc fuel) l r name =
      let next = backoff rules l r in
      let rest =
        backoff_loop available (some rules) fuel (names.before next) (names.after next) next in
      if str_eq name "" || available name then some name else rest
