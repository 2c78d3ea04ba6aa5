-- ===== src/Lts/Language.antt =====
-- The contexts that rules are meant to describe, independent of the search of `context_match`.
use speech_synthesis_system.Base.{
  String, ◌≡◌, refl, ◌⊎◌, inl, inr, Bool, true, false, Option, none, some, List, [], ◌∷◌, str_eq,
  if◌then◌else◌,
}
use speech_synthesis_system.Lts.Context.{Symbols, Sets, item_match, or_else}

-- An element of a context: an item once, any number of times, or at least once.
pub data Element : Type 0 where
  one : String → Element
  star : String → Element
  plus : String → Element

abbrev pub item : Element → String
item (one x) = x
item (star x) = x
item (plus x) = x

-- The text of a context, with its postfix operators.
abbrev pub print : List Element → Symbols
print [] = []
print (one x ∷ es) = x ∷ print es
print (star x ∷ es) = x ∷ "*" ∷ print es
print (plus x ∷ es) = x ∷ "+" ∷ print es

-- No item is spelled like an operator.
abbrev pub IsPlain : Element → Type 0
IsPlain e = (str_eq "*" (item e) ≡ false) × (str_eq "+" (item e) ≡ false)

-- The text that stands for NIL fits no item.
abbrev pub RejectsNil : String → Sets → Element → Type 0
RejectsNil nil_name sets e = item_match sets nil_name (item e) ≡ false

-- Some initial part of the symbols is in the language of the elements.
pub data Matches (sets : Sets) : List Element → Symbols → Type 0 where
  done : {a : Symbols} → Matches sets [] a
  one_item :
      {x c : String} {es : List Element} {a : Symbols}
      → item_match sets c x ≡ true
      → Matches sets es a
      → Matches sets (one x ∷ es) (c ∷ a)
  star_none :
      {x : String} {es : List Element} {a : Symbols}
      → Matches sets es a
      → Matches sets (star x ∷ es) a
  star_more :
      {x c : String} {es : List Element} {a : Symbols}
      → item_match sets c x ≡ true
      → Matches sets (star x ∷ es) a
      → Matches sets (star x ∷ es) (c ∷ a)
  plus_more :
      {x c : String} {es : List Element} {a : Symbols}
      → item_match sets c x ≡ true
      → Matches sets (star x ∷ es) a
      → Matches sets (plus x ∷ es) (c ∷ a)

-- The call returned, and its verdict is right about `G`.
abbrev pub Decides : Type 0 → Option Bool → Type 0
Decides G none = ⊥
Decides G (some true) = G
Decides G (some false) = ¬ G

pub Decides-map : {G H : Type 0} (r : Option Bool) → (G → H) → (H → G) → Decides G r → Decides H r
Decides-map none f g d = d
Decides-map (some true) f g d = f d
Decides-map (some false) f g d = λ h. d (g h)

pub Decides-or_else :
    (G H : Type 0) (r s : Option Bool) → Decides G r → Decides H s → Decides (G ⊎ H) (or_else r s)
unfolding or_else
Decides-or_else G H none s d e = absurd d
Decides-or_else G H (some true) s d e = inl d
Decides-or_else G H (some false) s d e =
    Decides-map s inr (λ x. elim x [ inl g ↦ absurd (d g) | inr h ↦ h ]) e

-- A test, then a call that is made only where the test passes.
pub Decides-if :
    (G : Type 0) (b : Bool) (r : Option Bool)
    → (b ≡ true → Decides G r)
    → Decides ((b ≡ true) × G) (if b then r else some false)
Decides-if G true r d = Decides-map r (λ g. (refl, g)) (λ p. p.1) (d refl)
Decides-if G false r d = λ p. cc (p.0)

module _ (sets : Sets) where
  -- The first symbol fits `x`, and the rest is in the language of `es`.
  abbrev pub Takes : String → List Element → Symbols → Type 0
  Takes x es [] = ⊥
  Takes x es (c ∷ a) = (item_match sets c x ≡ true) × Matches sets es a

  pub one_of_Takes :
      (x : String) (es : List Element) (a : Symbols) → Takes x es a → Matches sets (one x ∷ es) a
  one_of_Takes x es [] h = absurd h
  one_of_Takes x es (c ∷ a) h = one_item h.0 h.1

  pub Takes-of_one :
      (x : String) {es : List Element} {a : Symbols} → Matches sets (one x ∷ es) a → Takes x es a
  Takes-of_one x (one_item h m) = (h, m)

  pub plus_of_Takes :
      (x : String) (es : List Element) (a : Symbols)
      → Takes x (star x ∷ es) a
      → Matches sets (plus x ∷ es) a
  plus_of_Takes x es [] h = absurd h
  plus_of_Takes x es (c ∷ a) h = plus_more h.0 h.1

  pub Takes-of_plus :
      (x : String) {es : List Element} {a : Symbols}
      → Matches sets (plus x ∷ es) a
      → Takes x (star x ∷ es) a
  Takes-of_plus x (plus_more h m) = (h, m)

  abbrev pub StarCases : String → List Element → Symbols → Type 0
  StarCases x es a = Matches sets es a ⊎ (Matches sets (one x ∷ es) a ⊎ Takes x (star x ∷ es) a)

  pub star_of_cases :
      (x : String) (es : List Element) (a : Symbols)
      → StarCases x es a
      → Matches sets (star x ∷ es) a
  star_of_cases x es a (inl m) = star_none m
  star_of_cases x es (c ∷ a) (inr (inl m)) =
      let h = Takes-of_one x m in star_more h.0 (star_none h.1)
  star_of_cases x es [] (inr (inl m)) = absurd (Takes-of_one x m)
  star_of_cases x es (c ∷ a) (inr (inr h)) = star_more h.0 h.1
  star_of_cases x es [] (inr (inr h)) = absurd h

  pub cases_of_star :
      (x : String) (es : List Element) (a : Symbols)
      → Matches sets (star x ∷ es) a
      → StarCases x es a
  cases_of_star x es a (star_none m) = inl m
  cases_of_star x es a (star_more h m) = inr (inr (h, m))
