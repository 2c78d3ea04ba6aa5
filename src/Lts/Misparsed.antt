-- ===== src/Lts/Misparsed.antt =====
-- The error branch of `normalize` in lts_rules.cc, and what every accepted rule has.
use speech_synthesis_system.Base.{
  ◌≡◌, ◌≢◌, refl, sym, ap, ◌∙◌, Bool, false, List, [], ◌∷◌, str_eq, All, Outcome, ok, err, ◌>>=◌,
  ◌||◌, not, arith, Bool-cases, inl, inr, reverse, reverse-reverse,
}
use speech_synthesis_system.Lts.Context.{Symbols}
use speech_synthesis_system.Lts.Rules.{LtsError, misparsed_rule, Rule, is_nil}
use speech_synthesis_system.Lts.Normalize.{
  State, in_left, in_centre, in_right, in_result, Scan, scan, is_result, fix_postfix_ops,
  finish_rule, normalize, update_alphabet,
}

-- A scan that ends without having met its `=`.
abbrev IsUnfinished : Outcome LtsError Scan → Type 0
IsUnfinished (ok s) = is_result s.state ≡ false
IsUnfinished (err e) = ⊥

scan-IsUnfinished :
    (l : Symbols) (st : State) (lc t rc : Symbols)
    → All (λ x. str_eq "=" x ≡ false) l
    → is_result st ≡ false
    → IsUnfinished (scan l st lc t rc)
unfolding scan is_result
scan-IsUnfinished [] st lc t rc h n = n
scan-IsUnfinished (x ∷ l) in_left lc t rc h n = ground (
  arith,
  scan-IsUnfinished l in_centre lc t rc h.1 refl,
  scan-IsUnfinished l in_left (x ∷ lc) t rc h.1 refl,
)
scan-IsUnfinished (x ∷ l) in_centre lc t rc h n = ground (
  arith,
  scan-IsUnfinished l in_right lc t rc h.1 refl,
  scan-IsUnfinished l in_centre lc (x ∷ t) rc h.1 refl,
)
scan-IsUnfinished (x ∷ l) in_right lc t rc h n =
    rw h.0 (scan-IsUnfinished l in_right lc t (x ∷ rc) h.1 refl)
scan-IsUnfinished (x ∷ l) in_result lc t rc h n = cc

misparsed_of_unfinished :
    (o : Outcome LtsError Scan) (k : Scan → Rule → Outcome LtsError (List Rule × Symbols))
    → IsUnfinished o
    → (do s ← o; rule ← finish_rule s; k s rule) ≡ err misparsed_rule
unfolding finish_rule
misparsed_of_unfinished (ok s) k h = rw h
misparsed_of_unfinished (err e) k h = absurd h

-- A rule with no `=` is refused, whatever else it holds and whatever rules follow it.
pub normalize-no_equals :
    (r : Symbols) (rs : List Symbols) (alphabet : Symbols)
    → All (λ x. str_eq "=" x ≡ false) r
    → normalize (r ∷ rs) alphabet ≡ err misparsed_rule
unfolding normalize
normalize-no_equals r rs alphabet h =
    misparsed_of_unfinished (scan r in_left [] [] []) _
      (scan-IsUnfinished r in_left [] [] [] h (unfold is_result in refl))

is_nil-false : (l : Symbols) → is_nil l ≡ false → l ≢ []
unfolding is_nil
is_nil-false [] h = cc
is_nil-false (x ∷ l) h = λ e. cc e

-- A rule, if there is one, has a centre; and so has each of a list of rules.
abbrev HasCentre : Outcome LtsError Rule → Type 0
HasCentre (ok r) = r.centre ≢ []
HasCentre (err e) = Unit

abbrev pub HaveCentres : Outcome LtsError (List Rule × Symbols) → Type 0
HaveCentres (ok (rules, alphabet)) = All (λ r. r.centre ≢ []) rules
HaveCentres (err e) = Unit

HasCentre-close :
    (s : Scan) (o : Outcome LtsError Symbols)
    → s.t ≢ []
    → HasCentre
        (do lc ← o; ok (record { lc = lc; centre = reverse s.t; rc = reverse s.rc; rhs = s.rhs }))
HasCentre-close s (ok lc) h = λ e. h (sym (reverse-reverse s.t) ∙ ap reverse e)
HasCentre-close s (err e) h = tt

or_false : (a b : Bool) → (a || b) ≡ false → b ≡ false
or_false a b h = ground arith

finish_rule-HasCentre : (s : Scan) → HasCentre (finish_rule s)
unfolding finish_rule
finish_rule-HasCentre s = elim (Bool-cases (not (is_result s.state) || is_nil s.t)) [
  | inl e ↦ rw e tt
  | inr e ↦ rw e (HasCentre-close s (fix_postfix_ops s.lc) (is_nil-false s.t (or_false _ _ e)))
]

HaveCentres-bind :
    (o : Outcome LtsError Rule) (rest : Outcome LtsError (List Rule × Symbols))
    → HasCentre o
    → HaveCentres rest
    → HaveCentres (do rule ← o; (rules, alphabet) ← rest; ok (rule ∷ rules, alphabet))
HaveCentres-bind (ok r) (ok (rules, alphabet)) h hs = (h, hs)
HaveCentres-bind (ok r) (err e) h hs = tt
HaveCentres-bind (err e) rest h hs = tt

HaveCentres-scan :
    (o : Outcome LtsError Scan) (k : Scan → Outcome LtsError (List Rule × Symbols))
    → ((s : Scan) → HaveCentres (k s))
    → HaveCentres (o >>= k)
HaveCentres-scan (ok s) k h = h s
HaveCentres-scan (err e) k h = tt

-- Whatever the texts, every rule that `normalize` lets through has a centre.
pub normalize-HaveCentres :
    (texts : List Symbols) (alphabet : Symbols) → HaveCentres (normalize texts alphabet)
unfolding normalize
normalize-HaveCentres [] alphabet = tt
normalize-HaveCentres (t ∷ ts) alphabet = HaveCentres-scan (scan t in_left [] [] []) _ λ s.
    HaveCentres-bind (finish_rule s) _ (finish_rule-HasCentre s)
      (normalize-HaveCentres ts (update_alphabet s.t alphabet))
