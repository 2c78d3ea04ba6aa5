-- ===== src/Base/Lists.antt =====
-- Lists measured and indexed by native numbers, membership of texts, association lists.
use Prim.Native.Nat.{ℕ, zero, suc, ◌+◌, ◌<◌}
use mathlib.Core.Path.{◌≡◌, refl, ap, subst}
use mathlib.Core.Logic.{◌≢◌}
use mathlib.Core.List.{List, [], ◌∷◌, ◌++◌, reverse, reverse-cons}
use mathlib.Core.Option.{Option, none, some}
use native.Mathlib.Omega.{arith}

module _ {ℓ} {A : Type ℓ} where
  abbrev pub length : List A → ℕ
  length [] = 0
  length (x ∷ xs) = suc (length xs)

  abbrev pub head? : List A → Option A
  head? [] = none
  head? (x ∷ xs) = some x

  abbrev pub get_elem? : List A → ℕ → Option A
  get_elem? [] i = none
  get_elem? (x ∷ xs) zero = some x
  get_elem? (x ∷ xs) (suc i) = get_elem? xs i

  abbrev pub set : List A → ℕ → A → List A
  set [] i v = []
  set (x ∷ xs) zero v = v ∷ xs
  set (x ∷ xs) (suc i) v = x ∷ set xs i v

  pub length-append : (xs ys : List A) → length (xs ++ ys) ≡ length xs + length ys
  length-append [] ys = omega arith
  length-append (x ∷ xs) ys = omega (arith, length-append xs ys)

-- A predicate of every member, part by part.
module _ {ℓ κ} {A : Type ℓ} where
  abbrev pub All : (A → Type κ) → List A → Type κ
  All Q [] = Unit
  All Q (first ∷ rest) = Q first × All Q rest

  pub All-append :
      (Q : A → Type κ) (front back : List A) → All Q front → All Q back → All Q (front ++ back)
  All-append Q [] back tt b = b
  All-append Q (first ∷ front) back (q, f) b = (q, All-append Q front back f b)

  pub All-mono : (P Q : A → Type κ) (l : List A) → ((x : A) → P x → Q x) → All P l → All Q l
  All-mono P Q [] h a = tt
  All-mono P Q (first ∷ l) h a = (h first a.0, All-mono P Q l h a.1)

  pub All-append_inv :
      (Q : A → Type κ) (front back : List A) → All Q (front ++ back) → All Q front × All Q back
  All-append_inv Q [] back b = (tt, b)
  All-append_inv Q (first ∷ front) back (q, h) =
      let (f, b) = All-append_inv Q front back h in ((q, f), b)

module _ {ℓ} {A : Type ℓ} where
  pub get_elem?-append_left :
      (front back : List A) (i : ℕ)
      → i < length front
      → get_elem? (front ++ back) i ≡ get_elem? front i
  get_elem?-append_left [] back i h = absurd (omega arith)
  get_elem?-append_left (first ∷ front) back zero h = refl
  get_elem?-append_left (first ∷ front) back (suc i) h =
      get_elem?-append_left front back i (omega arith)

  pub get_elem?-append_last :
      (front : List A) (last : A) → get_elem? (front ++ last ∷ []) (length front) ≡ some last
  get_elem?-append_last [] last = refl
  get_elem?-append_last (first ∷ front) last = get_elem?-append_last front last

  pub length-set : (l : List A) (i : ℕ) (v : A) → length (set l i v) ≡ length l
  length-set [] i v = refl
  length-set (first ∷ l) zero v = refl
  length-set (first ∷ l) (suc i) v = ap suc (length-set l i v)

module _ {ℓ κ} {A : Type ℓ} where
  pub All-set : (Q : A → Type κ) (l : List A) (i : ℕ) (v : A) → Q v → All Q l → All Q (set l i v)
  All-set Q [] i v q h = tt
  All-set Q (first ∷ l) zero v q h = (q, h.1)
  All-set Q (first ∷ l) (suc i) v q h = (h.0, All-set Q l i v q h.1)

  pub All-get_elem? :
      (Q : A → Type κ) (l : List A) (i : ℕ) (v : A) → All Q l → get_elem? l i ≡ some v → Q v
  All-get_elem? Q [] i v h e = cc
  All-get_elem? Q (first ∷ l) zero v h e = let same : first ≡ v = cc in subst Q same h.0
  All-get_elem? Q (first ∷ l) (suc i) v h e = All-get_elem? Q l i v h.1 e

module _ {ℓ} {A : Type ℓ} where
  pub get_elem?-lt : (l : List A) (i : ℕ) → i < length l → (v : A) × (get_elem? l i ≡ some v)
  get_elem?-lt [] i h = absurd (omega arith)
  get_elem?-lt (first ∷ l) zero h = (first, refl)
  get_elem?-lt (first ∷ l) (suc i) h = get_elem?-lt l i (omega arith)

  pub get_elem?-set_same :
      (l : List A) (i : ℕ) (v : A) → i < length l → get_elem? (set l i v) i ≡ some v
  get_elem?-set_same [] i v h = absurd (omega arith)
  get_elem?-set_same (first ∷ l) zero v h = refl
  get_elem?-set_same (first ∷ l) (suc i) v h = get_elem?-set_same l i v (omega arith)

  pub get_elem?-set_other :
      (l : List A) (i j : ℕ) (v : A) → i ≢ j → get_elem? (set l i v) j ≡ get_elem? l j
  get_elem?-set_other [] i j v h = refl
  get_elem?-set_other (first ∷ l) zero zero v h = absurd (h refl)
  get_elem?-set_other (first ∷ l) zero (suc j) v h = refl
  get_elem?-set_other (first ∷ l) (suc i) zero v h = refl
  get_elem?-set_other (first ∷ l) (suc i) (suc j) v h =
      get_elem?-set_other l i j v (λ e. h (ap suc e))

  pub get_elem?-bound : (l : List A) (i : ℕ) (v : A) → get_elem? l i ≡ some v → i < length l
  get_elem?-bound [] i v h = absurd (cc)
  get_elem?-bound (first ∷ l) zero v h = omega arith
  get_elem?-bound (first ∷ l) (suc i) v h = omega (arith, get_elem?-bound l i v h)

module _ {ℓ} {A : Type ℓ} where
  pub length-reverse : (l : List A) → length (reverse l) ≡ length l
  length-reverse [] = refl
  length-reverse (first ∷ l) =
      rw (reverse-cons first l)
        (omega (arith, length-append (reverse l) (first ∷ []), length-reverse l))

module _ {ℓ κ} {A : Type ℓ} where
  pub All-reverse : (Q : A → Type κ) (l : List A) → All Q l → All Q (reverse l)
  All-reverse Q [] h = tt
  All-reverse Q (first ∷ l) h =
      rw (reverse-cons first l)
        (All-append Q (reverse l) (first ∷ []) (All-reverse Q l h.1) (h.0, tt))
