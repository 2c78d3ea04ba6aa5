-- ===== src/Backoff/Tests.antt =====
-- Runs of the back-off rules, and the theorems at concrete rules.
use Prim.Native.Char.{Char, code}
use Prim.Native.String.{[], ◌∷◌}
use mathlib.Core.List
use speech_synthesis_system.Base.{
  ℕ, String, ◌≡◌, inl, inr, refl, ap, Bool, true, false, none, some, str_eq, eq_iff, arith,
  if◌then◌else◌, ◌==◌, Bool-cases, All,
}
use speech_synthesis_system.Backoff.Rules.{DiphoneNames, BackoffRule, replaces, backoff_loop}
use speech_synthesis_system.Backoff.Progress.{
  IsRanked, Ends, backoff_loop-Ends, backoff_loop-available,
}
use speech_synthesis_system.Backoff.Cycle.{swap_rules, backoff_loop-swap_rules}

is_underscore : Char → Bool
is_underscore c = code c == 95

join : String → String → String
join [] r = "_" ∷ r
join (c ∷ l) r = c ∷ join l r

before : String → String
before [] = []
before (c ∷ s) = let rest = before s in if is_underscore c then [] else c ∷ rest

after : String → String
after [] = []
after (c ∷ s) = if is_underscore c then s else after s

-- No underscore in the name.
has_none : String → Bool
has_none [] = true
has_none (c ∷ s) = if is_underscore c then false else has_none s

underscore_test : is_underscore "_" ≡ true
unfolding is_underscore
underscore_test = refl

before_join : (l r : String) → has_none l ≡ true → before (join l r) ≡ l
unfolding before join has_none
before_join [] r h = rw underscore_test
before_join (c ∷ l) r h = elim (Bool-cases (is_underscore c)) [
  | inl e ↦ cc (rw e at h)
  | inr e ↦ rw e (ap (λ (t : String). c ∷ t) (before_join l r (rw e at h)))
]

after_join : (l r : String) → has_none l ≡ true → after (join l r) ≡ r
unfolding after join has_none is_underscore
after_join [] r h = refl
after_join (c ∷ l) r h = ground (arith, after_join l r)

cons_nonempty : (c : Char) (s : String) → str_eq (c ∷ s) "" ≡ false
cons_nonempty c s = elim (Bool-cases (str_eq (c ∷ s) "")) [
  | inl e ↦ cc ((eq_iff (c ∷ s) "").0 e)
  | inr e ↦ e
]

join_nonempty : (l r : String) → str_eq (join l r) "" ≡ false
unfolding join
join_nonempty [] r = cons_nonempty _ r
join_nonempty (c ∷ l) r = cons_nonempty c (join l r)

abbrev plain_names : DiphoneNames
plain_names = record {
  join = join;
  before = before;
  after = after;
  IsPhone = λ l. has_none l ≡ true;
  before_join = λ l r h k. before_join l r h;
  after_join = λ l r h k. after_join l r h;
  join_nonempty = join_nonempty;
}

-- t and d fall back on each other's class, and everything on the pause.
abbrev rules : List.List BackoffRule
rules =
    List.◌∷◌ (record { head = "t"; sub = "d"; more = List.[] })
      (List.◌∷◌ (record { head = "_"; sub = "pau"; more = List.[] }) List.[])

rank : String → ℕ
rank x = if str_eq x "pau" then 0 else if str_eq x "t" then 2 else 1

rules-IsRanked : All (IsRanked plain_names rank) rules
unfolding rank replaces has_none is_underscore
rules-IsRanked = (
  record {
    lower = λ x h. ground (arith, eq_iff "t" x, eq_iff x "t", eq_iff x "pau", eq_iff "t" "pau");
    phone = refl;
  },
  (
    record {
      lower = λ x h. ground (arith, eq_iff "_" x, eq_iff x "pau", eq_iff x "t", eq_iff "_" "pau");
      phone = refl;
    },
    tt,
  ),
)

has_pause : String → Bool
has_pause name = str_eq name "pau_pau"

backoff_loop-Ends_example :
    Ends plain_names rank rules has_pause
      (backoff_loop plain_names has_pause (some rules) 9 "t" "a" (join "t" "a"))
unfolding rank has_none is_underscore
backoff_loop-Ends_example =
    backoff_loop-Ends plain_names rank rules has_pause 9 "t" "a" rules-IsRanked refl refl
      (omega arith)

backoff_loop-available_example :
    (out : String) × (backoff_loop plain_names has_pause (some rules) 9 "t" "a" (join "t" "a")
      ≡ some out)
    × (has_pause out ≡ true)
unfolding rank has_none is_underscore has_pause join
backoff_loop-available_example =
    backoff_loop-available plain_names rank rules has_pause "pau" 9 "t" "a" rules-IsRanked
      (inr (inl (refl, refl))) refl refl refl (omega arith)

run_t_a : backoff_loop plain_names has_pause (some rules) 9 "t" "a" "t_a" ≡ some "pau_pau"
unfolding backoff_loop has_pause join before after is_underscore
run_t_a = refl

backoff_loop-swap_rules_example :
    backoff_loop plain_names has_pause (some (swap_rules "a" "e")) 4 "a" "t" (join "a" "t") ≡ none
unfolding has_none is_underscore has_pause join
backoff_loop-swap_rules_example =
    backoff_loop-swap_rules plain_names "a" "e" "t" has_pause 4
      (record {
        a_b = refl;
        a_c = refl;
        b_a = refl;
        b_c = refl;
        a_default = refl;
        b_default = refl;
      })
      refl refl refl refl refl
