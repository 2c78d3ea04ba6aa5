-- ===== src/Backoff/Cycle.antt =====
-- Rules that lead back to a phone keep the loop of DiphoneUnitVoice.cc going for ever.
use speech_synthesis_system.Base.{
  ℕ, zero, suc, String, ◌≡◌, refl, Bool, false, List, [], ◌∷◌, none, some, str_eq, eq_refl,
}
use speech_synthesis_system.Backoff.Rules.{
  DiphoneNames, BackoffRule, default_match, backoff, backoff_loop,
}

abbrev pub swap_rules : String → String → List BackoffRule
swap_rules a b =
    record { head = a; sub = b; more = [] } ∷ record { head = b; sub = a; more = [] } ∷ []

-- The three phones can be told apart, and the first two from the default mark.
pub record AreDistinct (a b c : String) : Type 0 where
  pub a_b : str_eq a b ≡ false
  pub a_c : str_eq a c ≡ false
  pub b_a : str_eq b a ≡ false
  pub b_c : str_eq b c ≡ false
  pub a_default : str_eq a default_match ≡ false
  pub b_default : str_eq b default_match ≡ false

module _ (names : DiphoneNames) (a b c : String) (d : AreDistinct a b c) where
  backoff-there : backoff names (swap_rules a b) a c ≡ names.join b c
  unfolding backoff
  backoff-there = simp (eq_refl, d.a_b)

  backoff-back : backoff names (swap_rules a b) b c ≡ names.join a c
  unfolding backoff
  backoff-back = simp (eq_refl, d.a_b, d.a_c, d.b_a, d.a_default)

  module _ (available : String → Bool) (pa : names.IsPhone a) (pb : names.IsPhone b)
      (pc : names.IsPhone c) (na : available (names.join a c) ≡ false)
      (nb : available (names.join b c) ≡ false) where
    never_ends :
        (fuel : ℕ)
        → (backoff_loop names available (some (swap_rules a b)) fuel a c (names.join a c) ≡ none)
          × (backoff_loop names available (some (swap_rules a b)) fuel b c (names.join b c) ≡ none)
    unfolding backoff_loop
    never_ends zero = (refl, refl)
    never_ends (suc fuel) = (
      rw (names.join_nonempty a c, na)
          (rw (backoff-there)
            (rw (names.before_join b c pb pc, names.after_join b c pb pc) (never_ends fuel).1)),
      rw (names.join_nonempty b c, nb)
          (rw (backoff-back)
            (rw (names.before_join a c pa pc, names.after_join a c pa pc) (never_ends fuel).0)),
    )

-- With two rules that swap two phones, the loop on a diphone of one of them with a third phone never
-- ends, whatever the fuel, if neither diphone is available.
pub backoff_loop-swap_rules :
    (names : DiphoneNames) (a b c : String) (available : String → Bool) (fuel : ℕ)
    → AreDistinct a b c
    → names.IsPhone a
    → names.IsPhone b
    → names.IsPhone c
    → available (names.join a c) ≡ false
    → available (names.join b c) ≡ false
    → backoff_loop names available (some (swap_rules a b)) fuel a c (names.join a c) ≡ none
backoff_loop-swap_rules names a b c available fuel d pa pb pc na nb =
    (never_ends names a b c d available pa pb pc na nb fuel).0
