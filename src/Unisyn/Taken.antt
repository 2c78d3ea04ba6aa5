-- ===== src/Unisyn/Taken.antt =====
-- What `make_onset` and `make_coda` of syllabify.cc take of the phones between two nuclei.
use speech_synthesis_system.Base.{
  ℕ, ◌+◌, ◌-◌, ◌<◌, ◌≡◌, refl, ap, true, false, Option, none, some, List, [], ◌∷◌, ◌++◌, length,
  str_eq, arith, Bool-cases, inl, inr, All,
}
use speech_synthesis_system.Unisyn.Onset.{
  Phone, is_nucleus, legal_c1, legal_c2, legal_c3, Onset, third, second, make_onset,
}
use speech_synthesis_system.Unisyn.Word.{coda_from}

-- No nucleus is called `s`.
abbrev pub IsSound : Phone → Type 0
IsSound p = is_nucleus p ≡ true → str_eq p.name "s" ≡ false

abbrev pub IsConsonant : Phone → Type 0
IsConsonant p = is_nucleus p ≡ false

abbrev pub taken_of : Option (List Phone) → List Phone
taken_of none = []
taken_of (some taken) = taken

-- The onset is an end of the gap behind the last nucleus, and its first phone is returned.
abbrev pub Takes : ℕ → List Phone → Onset → Type 0
Takes i gap o =
    (left : List Phone) × (gap ≡ taken_of o.taken ++ left)
    × (o.returned ≡ some (i - length (taken_of o.taken)))

legal_c2-nucleus : (c1 v : Phone) → is_nucleus v ≡ true → legal_c2 c1 v ≡ false
unfolding legal_c2
legal_c2-nucleus c1 v h = rw h refl

legal_c3-nucleus : (c1 c2 v : Phone) → str_eq v.name "s" ≡ false → legal_c3 c1 c2 v ≡ false
unfolding legal_c3
legal_c3-nucleus c1 c2 v h = rw h refl

third-Takes :
    (i : ℕ) (c1 c2 v : Phone) (gap rest : List Phone)
    → str_eq v.name "s" ≡ false
    → Takes i (c1 ∷ c2 ∷ gap) (third i c1 c2 (gap ++ v ∷ rest))
unfolding third
third-Takes i c1 c2 v [] rest s = rw (legal_c3-nucleus c1 c2 v s) ([], refl, refl)
third-Takes i c1 c2 v (c3 ∷ gap) rest s = elim (Bool-cases (legal_c3 c1 c2 c3)) [
  | inl e ↦ rw e (gap, refl, refl)
  | inr e ↦ rw e (c3 ∷ gap, refl, refl)
]

second-Takes :
    (i : ℕ) (c1 v : Phone) (gap rest : List Phone)
    → is_nucleus v ≡ true
    → str_eq v.name "s" ≡ false
    → Takes i (c1 ∷ gap) (second i c1 (gap ++ v ∷ rest))
unfolding second
second-Takes i c1 v [] rest n s = rw (legal_c2-nucleus c1 v n) ([], refl, refl)
second-Takes i c1 v (c2 ∷ gap) rest n s = elim (Bool-cases (legal_c2 c1 c2)) [
  | inl e ↦ rw e (third-Takes i c1 c2 v gap rest s)
  | inr e ↦ rw e (c2 ∷ gap, refl, refl)
]

pub make_onset-Takes :
    (i : ℕ) (v : Phone) (gap rest : List Phone)
    → is_nucleus v ≡ true
    → IsSound v
    → All IsConsonant gap
    → Takes i gap (make_onset false i (gap ++ v ∷ rest))
unfolding make_onset
make_onset-Takes i v [] rest n s c = rw n ([], refl, ap some (omega arith))
make_onset-Takes i v (c1 ∷ gap) rest n s c = elim (Bool-cases (legal_c1 c1)) [
  | inl e ↦ rw (c.0, e) (second-Takes i c1 v gap rest n (s n))
  | inr e ↦ rw (c.0, e) (c1 ∷ gap, refl, ap some (omega arith))
]

-- The coda ends before the item that was returned.
pub coda_from-append :
    (k : ℕ) (front back : List Phone)
    → coda_from k (front ++ back) (some (k + length front)) ≡ front
unfolding coda_from
coda_from-append k [] [] = refl
coda_from-append k [] (y ∷ back) = ground arith
coda_from-append k (x ∷ front) back = ground (arith, coda_from-append (k + 1) front back)

-- Where the item stands before the coda, or there is none, the coda takes all phones.
abbrev pub IsBehind : Option ℕ → ℕ → Type 0
IsBehind none k = Unit
IsBehind (some j) k = j < k

pub coda_from-all :
    (k : ℕ) (phones : List Phone) (returned : Option ℕ)
    → IsBehind returned k
    → coda_from k phones returned ≡ phones
unfolding coda_from
coda_from-all k [] returned h = refl
coda_from-all k (x ∷ phones) none h = ap (λ l. x ∷ l) (coda_from-all (k + 1) phones none tt)
coda_from-all k (x ∷ phones) (some j) h = ground (arith, coda_from-all (k + 1) phones (some j))
