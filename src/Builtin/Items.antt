-- ===== src/Builtin/Items.antt =====
-- Items of an utterance, which the string library EST keeps, as the functions of ff.cc use them.
use speech_synthesis_system.Base.{
  ℕ, String, ◌≡◌, Bool, true, false, Option, none, some, List, [], ◌∷◌,
}

-- An item is a place in a relation. `as_relation r p` is the item of the same contents in the relation
-- `r`. `onward p` lists the items that `p`, `inext(p)` and so on are until there is none, and `backward p`
-- those that `p`, `iprev(p)` and so on are. `same` compares two pointers. `stress` is the number of
-- the feature `stress`, 0 where there is none.
pub record Items : Type 1 where
  pub Item : Type 0
  pub same : Item → Item → Bool
  pub item_name : Item → String
  pub stress : Item → ℕ
  pub as_relation : String → Item → Option Item
  pub inext : Item → Option Item
  pub iprev : Item → Option Item
  pub parent : Item → Option Item
  pub daughter1 : Item → Option Item
  pub daughter2 : Item → Option Item
  pub daughtern : Item → Option Item
  pub first : Item → Option Item
  pub last : Item → Option Item
  pub onward : Item → List Item
  pub backward : Item → List Item

-- What is asked of no item gives none.
abbrev pub of_item {ℓ κ} : {A : Type ℓ} {B : Type κ} → (A → Option B) → Option A → Option B
of_item f none = none
of_item f (some p) = f p

-- The items of a loop that begins at this one.
abbrev pub run {ℓ} : {A : Type ℓ} → (A → List A) → Option A → List A
run f none = []
run f (some p) = f p

abbrev pub exists {ℓ} : {A : Type ℓ} → Option A → Bool
exists none = false
exists (some p) = true

-- What the library documents of a relation: each item is followed by the loop from its neighbour, and an
-- item is the same as itself.
pub record Laws (u : Items) : Type 0 where
  pub onward_lem : (p : u.Item) → u.onward p ≡ p ∷ run u.onward (u.inext p)
  pub backward_lem : (p : u.Item) → u.backward p ≡ p ∷ run u.backward (u.iprev p)
  pub same_lem : (p : u.Item) → u.same p p ≡ true
