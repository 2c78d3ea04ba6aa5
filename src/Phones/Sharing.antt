-- ===== src/Phones/Sharing.antt =====
-- The list of phone sets and the current one in Phone.cc: what each operation changes for whom.
use speech_synthesis_system.Base.{
  ℕ, ◌<◌, ◌≤◌, String, ◌≡◌, refl, ap, ◌∙◌, Option, none, some, Outcome, ok, err, ◌>>=◌, List, [],
  ◌∷◌, ◌++◌, length, get_elem?, str_eq, eq_iff, if◌then◌else◌, arith, Bool-cases, inl, inr, All,
  Option-cases, get_elem?-append_left, get_elem?-append_last,
}
use speech_synthesis_system.Phones.Set.{PhoneError, not_defined, PhoneSet, assoc_str}
use speech_synthesis_system.Phones.State.{
  PhoneSets, no_sets, set_at, replace_set, ps_add_def, add_set, current_place, current_phoneset,
  place_of, find_phoneset,
}
use speech_synthesis_system.Phones.Legal.{IsWellFormed}

abbrev pub IsPlace : ℕ → Option ℕ → Type 0
IsPlace n none = Unit
IsPlace n (some i) = i < n

-- Every pointer leads to a set, and every set is well formed.
pub record IsSound (s : PhoneSets) : Type 0 where
  pub closed : All (λ (e : String × ℕ). e.1 < length s.built) s.set_list
  pub chosen : IsPlace (length s.built) s.current
  pub formed : All IsWellFormed s.built

assoc_str-replace_set :
    (k j : String) (i : ℕ) (l : List (String × ℕ)) (old : ℕ)
    → assoc_str k l ≡ some old
    → assoc_str j (replace_set k i l) ≡ (if str_eq j k then some i else assoc_str j l)
unfolding assoc_str replace_set
assoc_str-replace_set k j i [] old h = cc
assoc_str-replace_set k j i ((n, r) ∷ l) old h =
    ground (arith, eq_iff k n, eq_iff j n, eq_iff j k, assoc_str-replace_set k j i l old)

assoc_str-ps_add_def :
    (k j : String) (i : ℕ) (s : PhoneSets)
    → assoc_str j (ps_add_def k i s).set_list
      ≡ (if str_eq j k then some i else assoc_str j s.set_list)
unfolding ps_add_def
assoc_str-ps_add_def k j i s = elim (Option-cases (assoc_str k s.set_list)) [
  | inl e ↦ rw (e, ps_add_def) (unfold assoc_str in refl)
  | inr (old, e) ↦ rw (e, ps_add_def) (assoc_str-replace_set k j i s.set_list old e)
]

built-ps_add_def : (k : String) (i : ℕ) (s : PhoneSets) → (ps_add_def k i s).built ≡ s.built
unfolding ps_add_def
built-ps_add_def k i s = ground arith

assoc_str-lt :
    (n : ℕ) (j : String) (l : List (String × ℕ)) (i : ℕ)
    → All (λ (e : String × ℕ). e.1 < n) l
    → assoc_str j l ≡ some i
    → i < n
unfolding assoc_str
assoc_str-lt n j [] i a h = cc
assoc_str-lt n j ((k, m) ∷ l) i a h = ground (arith, assoc_str-lt n j l i)

get_elem?-last :
    (s : PhoneSets) (ps : PhoneSet) → get_elem? (s.built ++ ps ∷ []) (length s.built) ≡ some ps
get_elem?-last s ps = get_elem?-append_last s.built ps

abbrev pub or_not_defined : Option PhoneSet → Outcome PhoneError PhoneSet
or_not_defined found = elim found [ none ↦ err not_defined | some ps ↦ ok ps ]

pub set_at-get_elem? :
    (s : PhoneSets) (i : ℕ) (found : Option PhoneSet)
    → get_elem? s.built i ≡ found
    → set_at s i ≡ or_not_defined found
unfolding set_at
set_at-get_elem? s i found e = ap or_not_defined e

or_place : Option ℕ → Outcome PhoneError ℕ
or_place found = elim found [ none ↦ err not_defined | some i ↦ ok i ]

place_of-add_set :
    (j : String) (ps : PhoneSet) (s : PhoneSets)
    → place_of j (add_set ps s)
      ≡ (if str_eq j ps.psetname then ok (length s.built) else place_of j s)
unfolding add_set place_of or_place
place_of-add_set j ps s =
    ap or_place (
      assoc_str-ps_add_def ps.psetname j (length s.built) (record s { built = s.built ++ ps ∷ [] }))
    ∙ elim (Bool-cases (str_eq j ps.psetname)) [ inl e ↦ rw e refl | inr e ↦ rw e refl ]

pub built-add_set : (ps : PhoneSet) (s : PhoneSets) → (add_set ps s).built ≡ s.built ++ ps ∷ []
unfolding add_set
built-add_set ps s =
    built-ps_add_def ps.psetname (length s.built) (record s { built = s.built ++ ps ∷ [] })

pub place_of-lt :
    (j : String) (s : PhoneSets) (i : ℕ) → IsSound s → place_of j s ≡ ok i → i < length s.built
unfolding place_of
place_of-lt j s i v h = ground (arith, assoc_str-lt (length s.built) j s.set_list i v.closed)

get_elem?-add_set :
    (ps : PhoneSet) (s : PhoneSets) (i : ℕ)
    → i < length s.built
    → get_elem? (add_set ps s).built i ≡ get_elem? s.built i
get_elem?-add_set ps s i h =
    ap (λ l. get_elem? l i) (built-add_set ps s) ∙ get_elem?-append_left s.built (ps ∷ []) i h

set_at-add_set :
    (ps : PhoneSet) (s : PhoneSets) (i : ℕ)
    → i < length s.built
    → set_at (add_set ps s) i ≡ set_at s i
unfolding set_at
set_at-add_set ps s i h = ap or_not_defined (get_elem?-add_set ps s i h)

set_at-added : (ps : PhoneSet) (s : PhoneSets) → set_at (add_set ps s) (length s.built) ≡ ok ps
set_at-added ps s =
    set_at-get_elem? (add_set ps s) (length s.built) (some ps)
      (ap (λ l. get_elem? l (length s.built)) (built-add_set ps s) ∙ get_elem?-last s ps)
    ∙ refl

find_phoneset-old :
    (j : String) (ps : PhoneSet) (s : PhoneSets) (place : Outcome PhoneError ℕ)
    → IsSound s
    → place_of j s ≡ place
    → (place >>= λ i. set_at (add_set ps s) i) ≡ (place >>= λ i. set_at s i)
find_phoneset-old j ps s (ok i) v h = set_at-add_set ps s i (place_of-lt j s i v h)
find_phoneset-old j ps s (err e) v h = refl

-- In a sound state, a defined set is found by its name and is the current one; every other name finds what it found.
pub find_phoneset-add_set :
    (ps : PhoneSet) (s : PhoneSets)
    → IsSound s
    → (current_phoneset (add_set ps s) ≡ ok ps)
      × ((j : String)
          → find_phoneset j (add_set ps s)
            ≡ (if str_eq j ps.psetname then ok ps else find_phoneset j s))
unfolding current_phoneset find_phoneset current_place add_set
find_phoneset-add_set ps s v = (
  set_at-added ps s,
  λ j.
      ap (λ place. place >>= λ i. set_at (add_set ps s) i) (place_of-add_set j ps s)
      ∙ elim (Bool-cases (str_eq j ps.psetname)) [
        | inl e ↦ rw e (set_at-added ps s)
        | inr e ↦ rw e (find_phoneset-old j ps s (place_of j s) v refl)
      ],
)

-- The empty state, and what `ps_add_def` keeps of the pointers.
pub no_sets-IsSound : IsSound no_sets
no_sets-IsSound = record { closed = tt; chosen = tt; formed = tt }

pub All-lt-more :
    (n m : ℕ) (l : List (String × ℕ))
    → n ≤ m
    → All (λ (e : String × ℕ). e.1 < n) l
    → All (λ (e : String × ℕ). e.1 < m) l
All-lt-more n m [] h a = tt
All-lt-more n m ((k, i) ∷ l) h a = (omega (arith, a.0), All-lt-more n m l h a.1)

replace_set-All :
    (P : String × ℕ → Type 0) (k : String) (i : ℕ) (l : List (String × ℕ))
    → ((j : String) → P (j, i))
    → All P l
    → All P (replace_set k i l)
unfolding replace_set
replace_set-All P k i [] h a = tt
replace_set-All P k i ((j, old) ∷ l) h a = elim (Bool-cases (str_eq k j)) [
  | inl e ↦ rw e (h j, a.1)
  | inr e ↦ rw e (a.0, replace_set-All P k i l h a.1)
]

pub ps_add_def-All :
    (P : String × ℕ → Type 0) (k : String) (i : ℕ) (s : PhoneSets)
    → ((j : String) → P (j, i))
    → All P s.set_list
    → All P (ps_add_def k i s).set_list
unfolding ps_add_def
ps_add_def-All P k i s h a = elim (Option-cases (assoc_str k s.set_list)) [
  | inl e ↦ rw (e, ps_add_def) (h k, a)
  | inr (old, e) ↦ rw (e, ps_add_def) (replace_set-All P k i s.set_list h a)
]
