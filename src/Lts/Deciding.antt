-- ===== src/Lts/Deciding.antt =====
-- `context_match` of lts_rules.cc decides the language of a rule's context.
use speech_synthesis_system.Base.{
  ℕ, zero, suc, ◌+◌, ◌<◌, String, ◌≡◌, refl, Bool, false, Option, some, List, [], ◌∷◌, tail, length,
  head?, if◌then◌else◌, arith, All,
}
use speech_synthesis_system.Lts.Context.{
  Symbols, Sets, item_match, starts_by, or_else, name_of, context_match,
}
use speech_synthesis_system.Lts.Language.{
  Element, one, star, plus, print, IsPlain, RejectsNil, Matches, done, Decides, Decides-map,
  Decides-or_else, Decides-if, Takes, one_of_Takes, Takes-of_one, plus_of_Takes, Takes-of_plus,
  star_of_cases, cases_of_star,
}

-- The fuel that is left covers the call behind one symbol.
shorter : (a : Symbols) (k f : ℕ) → 0 < length a → length a + k < suc f → length (tail a) + k < f
shorter [] k f n h = absurd (omega arith)
shorter (c ∷ a) k f n h = omega arith

module _ (nil_name : String) (sets : Sets) where
  -- What the search relies on, for every element.
  abbrev pub IsSound : Element → Type 0
  IsSound e = IsPlain e × RejectsNil nil_name sets e

  no_operator :
      (es : List Element)
      → All IsSound es
      → (starts_by "*" (print es) ≡ false) × (starts_by "+" (print es) ≡ false)
  unfolding starts_by
  no_operator [] s = (refl, refl)
  no_operator (one x ∷ es) s = s.0.0
  no_operator (star x ∷ es) s = s.0.0
  no_operator (plus x ∷ es) s = s.0.0

  -- The test of one symbol, then the call on the symbols behind it.
  Decides-step :
      (x : String) (es : List Element) (a : Symbols) (r : Option Bool)
      → item_match sets nil_name x ≡ false
      → (0 < length a → Decides (Matches sets es (tail a)) r)
      → Decides
          (Takes sets x es a)
          (if item_match sets (name_of nil_name (head? a)) x then r else some false)
  unfolding name_of
  Decides-step x es [] r n d = rw n (λ h. h)
  Decides-step x es (c ∷ a) r n d = Decides-if _ (item_match sets c x) r (λ _. d (omega arith))

  -- The three ways that `context_match` tries at a starred item.
  Decides-star :
      (x : String) (es : List Element) (a : Symbols) (r s t : Option Bool)
      → Decides (Matches sets es a) r
      → Decides (Matches sets (one x ∷ es) a) s
      → Decides (Takes sets x (star x ∷ es) a) t
      → Decides (Matches sets (star x ∷ es) a) (or_else r (or_else s t))
  Decides-star x es a r s t dr ds dt =
      Decides-map (or_else r (or_else s t)) (star_of_cases sets x es a) (cases_of_star sets x es a)
        (Decides-or_else _ _ r (or_else s t) dr (Decides-or_else _ _ s t ds dt))

  pub context_match-Decides :
      (f : ℕ) (a : Symbols) (es : List Element)
      → All IsSound es
      → length a + length (print es) < f
      → Decides (Matches sets es a) (context_match nil_name f sets a (print es))
  unfolding context_match
  context_match-Decides zero a es s h = absurd (omega arith)
  context_match-Decides (suc f) a [] s h = done
  context_match-Decides (suc f) a (one x ∷ es) s h =
      rw ((no_operator es s.1).0, (no_operator es s.1).1)
        (Decides-map _ (one_of_Takes sets x es a) (Takes-of_one sets x) (
          Decides-step x es a _ s.0.1
            λ n. context_match-Decides f (tail a) es s.1 (shorter a _ f n (omega arith))))
  context_match-Decides (suc f) a (star x ∷ es) s h =
      Decides-star x es a (context_match nil_name f sets a (print es))
        (context_match nil_name f sets a (print (one x ∷ es)))
        (if item_match sets (name_of nil_name (head? a)) x
          then context_match nil_name f sets (tail a) (print (star x ∷ es))
          else some false)
        (context_match-Decides f a es s.1 (omega arith))
        (context_match-Decides f a (one x ∷ es) s (omega arith))
        (Decides-step x (star x ∷ es) a _ s.0.1
          λ n. context_match-Decides f (tail a) (star x ∷ es) s (shorter a _ f n (omega arith)))
  context_match-Decides (suc f) a (plus x ∷ es) s h =
      Decides-map _ (plus_of_Takes sets x es a) (Takes-of_plus sets x) (
        Decides-step x (star x ∷ es) a _ s.0.1
          λ n. context_match-Decides f (tail a) (star x ∷ es) s (shorter a _ f n (omega arith)))
