-- ===== src/Backoff/Progress.antt =====
-- Termination of the back-off loop of DiphoneUnitVoice.cc, and its success.
use speech_synthesis_system.Base.{
  ℕ, zero, suc, ◌+◌, ◌<◌, String, ◌≡◌, ◌⊎◌, inl, inr, refl, Bool, true, false, List, [], ◌∷◌,
  Option, none, some, eq_iff, eq_refl, All, arith, Bool-cases,
}
use speech_synthesis_system.Backoff.Rules.{
  DiphoneNames, BackoffRule, default_match, replaces, backoff_phones, backoff, backoff_loop,
}

-- Every replacement by the rule lowers the rank, and puts a phone there.
pub record IsRanked (names : DiphoneNames) (rank : String → ℕ) (rule : BackoffRule) : Type 0 where
  pub lower : (x : String) → replaces rule x ≡ true → rank rule.sub < rank x
  pub phone : names.IsPhone rule.sub

-- A step of the rules from one pair of phones to the next, or a pair that no rule replaces.
pub data Step (names : DiphoneNames) (rank : String → ℕ) (rules : List BackoffRule) (l r : String)
    : String × String → Type 0 where
  changed :
      {l' r' : String}
      → rank l' + rank r' < rank l + rank r
      → names.IsPhone l'
      → names.IsPhone r'
      → Step names rank rules l r (l', r')
  unchanged :
      All (λ rule. (replaces rule l ≡ false) × (replaces rule r ≡ false)) rules
      → Step names rank rules l r (l, r)

module _ (names : DiphoneNames) (rank : String → ℕ) (l r : String) (pl : names.IsPhone l)
    (pr : names.IsPhone r) where
  Step-later :
      (rule : BackoffRule) (rules : List BackoffRule) (p : String × String)
      → replaces rule l ≡ false
      → replaces rule r ≡ false
      → Step names rank rules l r p
      → Step names rank (rule ∷ rules) l r p
  Step-later rule rules p nl nr (changed h a b) = changed h a b
  Step-later rule rules p nl nr (unchanged h) = unchanged ((nl, nr), h)

  backoff_phones-Step :
      (rules : List BackoffRule)
      → All (IsRanked names rank) rules
      → Step names rank rules l r (backoff_phones rules l r)
  unfolding backoff_phones
  backoff_phones-Step [] h = unchanged tt
  backoff_phones-Step (rule ∷ rules) (h, hs) = elim (Bool-cases (replaces rule l)) [
    | inl e ↦ rw e (changed (omega (arith, h.lower l e)) h.phone pr)
    | inr e ↦ rw e (elim (Bool-cases (replaces rule r)) [
      | inl e' ↦ rw e' (changed (omega (arith, h.lower r e')) pl h.phone)
      | inr e' ↦ rw e' (Step-later rule rules _ e e' (backoff_phones-Step rules hs))
    ])
  ]

-- A pair of phones that no rule replaces.
abbrev pub IsFinal : List BackoffRule → String → String → Type 0
IsFinal rules l r = All (λ rule. (replaces rule l ≡ false) × (replaces rule r ≡ false)) rules

module _ (names : DiphoneNames) (rank : String → ℕ) (rules : List BackoffRule)
    (available : String → Bool) where
  -- The loop has ended at an available diphone, or with the empty name, behind a missing diphone of
  -- which no rule replaces a phone.
  abbrev pub Ends : Option String → Type 0
  Ends none = ⊥
  Ends (some out) =
      (available out ≡ true)
      ⊎ ((out ≡ "") × ((l r : String) × IsFinal rules l r × (available (names.join l r) ≡ false)))

  backoff-changed :
      (l r l' r' : String)
      → backoff_phones rules l r ≡ (l', r')
      → rank l' + rank r' < rank l + rank r
      → backoff names rules l r ≡ names.join l' r'
  unfolding backoff
  backoff-changed l r l' r' e h = rw e (ground (arith, eq_iff l l', eq_iff r r'))

  backoff-unchanged :
      (l r : String) → backoff_phones rules l r ≡ (l, r) → backoff names rules l r ≡ ""
  unfolding backoff
  backoff-unchanged l r e = rw e (rw (eq_refl l, eq_refl r))

  backoff_loop-empty :
      (fuel : ℕ) (l r : String)
      → backoff_loop names available (some rules) (suc fuel) l r "" ≡ some ""
  unfolding backoff_loop
  backoff_loop-empty fuel l r = refl

  -- One round at a missing diphone, before a loop that is right for every pair of phones below.
  round-Ends :
      (fuel : ℕ) (l r : String) (p : String × String)
      → ((l' r' : String)
          → names.IsPhone l'
          → names.IsPhone r'
          → rank l' + rank r' + 1 < suc fuel
          → Ends (backoff_loop names available (some rules) (suc fuel) l' r' (names.join l' r')))
      → rank l + rank r + 1 < suc (suc fuel)
      → backoff_phones rules l r ≡ p
      → Step names rank rules l r p
      → available (names.join l r) ≡ false
      → Ends (
          backoff_loop names available
            (some rules)
            (suc fuel)
            (names.before (backoff names rules l r))
            (names.after (backoff names rules l r))
            (backoff names rules l r))
  round-Ends fuel l r p ih h e (changed {l'} {r'} lower a b) n =
      rw (backoff-changed l r l' r' e lower)
        (rw (names.before_join l' r' a b, names.after_join l' r' a b) (ih l' r' a b (omega arith)))
  round-Ends fuel l r p ih h e (unchanged f) n =
      rw (backoff-unchanged l r e, backoff_loop-empty) (inr (refl, (l, r, f, n)))

  -- Where every replacement lowers a rank of the phones, the loop ends within the rank of the pair
  -- and two rounds, at an available diphone or, behind a missing diphone that no rule changes, empty.
  pub backoff_loop-Ends :
      (fuel : ℕ) (l r : String)
      → All (IsRanked names rank) rules
      → names.IsPhone l
      → names.IsPhone r
      → rank l + rank r + 1 < fuel
      → Ends (backoff_loop names available (some rules) fuel l r (names.join l r))
  unfolding backoff_loop
  backoff_loop-Ends zero l r s pl pr h = absurd (omega arith)
  backoff_loop-Ends (suc zero) l r s pl pr h = absurd (omega arith)
  backoff_loop-Ends (suc (suc fuel)) l r s pl pr h =
      elim (Bool-cases (available (names.join l r))) [
        | inl e ↦ rw (names.join_nonempty l r, e) (inl e)
        | inr e ↦
            rw (names.join_nonempty l r, e)
              (round-Ends fuel l r (backoff_phones rules l r)
                (λ l' r' a b lt. backoff_loop-Ends (suc fuel) l' r' s a b lt) h refl
                (backoff_phones-Step names rank l r pl pr rules s) e)
      ]

-- Some rule replaces every phone but `sil` by `sil`.
abbrev pub HasDefault : String → List BackoffRule → Type 0
HasDefault sil [] = ⊥
HasDefault sil (rule ∷ rules) =
    ((rule.head ≡ default_match) × (rule.sub ≡ sil)) ⊎ HasDefault sil rules

replaces-default :
    (rule : BackoffRule) (sil x : String)
    → rule.head ≡ default_match
    → rule.sub ≡ sil
    → replaces rule x ≡ false
    → x ≡ sil
unfolding replaces
replaces-default rule sil x e f h =
    ground (arith, eq_iff rule.head default_match, eq_iff x rule.sub)

IsFinal-default :
    (rules : List BackoffRule) (sil l r : String)
    → HasDefault sil rules
    → IsFinal rules l r
    → (l ≡ sil) × (r ≡ sil)
IsFinal-default [] sil l r d f = absurd d
IsFinal-default (rule ∷ rules) sil l r (inl d) f =
    (replaces-default rule sil l d.0 d.1 f.0.0, replaces-default rule sil r d.0 d.1 f.0.1)
IsFinal-default (rule ∷ rules) sil l r (inr d) f = IsFinal-default rules sil l r d f.1

-- With a default rule to a phone whose diphone with itself is available, the loop ends at an
-- available diphone, whatever the first diphone was.
pub backoff_loop-available :
    (names : DiphoneNames) (rank : String → ℕ) (rules : List BackoffRule)
    (available : String → Bool) (sil : String) (fuel : ℕ) (l r : String)
    → All (IsRanked names rank) rules
    → HasDefault sil rules
    → available (names.join sil sil) ≡ true
    → names.IsPhone l
    → names.IsPhone r
    → rank l + rank r + 1 < fuel
    → (out : String) × (backoff_loop names available (some rules) fuel l r (names.join l r)
        ≡ some out)
      × (available out ≡ true)
backoff_loop-available names rank rules available sil fuel l r s d a pl pr h =
    settle (backoff_loop names available (some rules) fuel l r (names.join l r))
      (backoff_loop-Ends names rank rules available fuel l r s pl pr h)
  where
    settle :
        (o : Option String)
        → Ends names rank rules available o
        → (out : String) × (o ≡ some out) × (available out ≡ true)
    settle none e = absurd e
    settle (some out) (inl e) = (out, refl, e)
    settle (some out) (inr (e, (l', r', f, n))) =
        let (el, er) = IsFinal-default rules sil l' r' d f in cc
