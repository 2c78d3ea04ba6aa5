-- ===== src/Phones/Mapping.antt =====
-- `map_phone` and `ph_sonority` of Phone.cc: what a phone is mapped to, and how sonority grades it.
use speech_synthesis_system.Base.{
  String, ◌≡◌, refl, sym, ◌∙◌, true, false, none, some, Outcome, ok, err, ◌>>=◌, List, [], ◌∷◌,
  str_eq, eq_iff, eq_refl, arith, Bool-cases, inl, inr, All, false≢true,
}
use speech_synthesis_system.Phones.Set.{
  PhoneError, Phone, PhoneSet, val, agree, match_features, assoc_str, member, first_matching,
  find_matched_phone, cannot_map,
}
use speech_synthesis_system.Phones.State.{PhoneSets, find_phoneset, or_not_a_member, map_phone}
use speech_synthesis_system.Phones.Legal.{IsWellFormed}
use speech_synthesis_system.Phones.Numbers.{IsDistinct}

-- Every feature of the phone has the value that it has in the foreign phone.
abbrev pub IsLike : Phone → Phone → Type 0
IsLike foreign p = All (λ (f : String × String). f.1 ≡ val foreign f.0) p.features

agree-IsLike :
    (foreign : Phone) (l : List (String × String))
    → agree l foreign ≡ true
    → All (λ (f : String × String). f.1 ≡ val foreign f.0) l
unfolding agree
agree-IsLike foreign [] h = tt
agree-IsLike foreign ((k, v) ∷ l) h = elim (Bool-cases (str_eq v (val foreign k))) [
  | inl e ↦ ((eq_iff v (val foreign k)).0 e, agree-IsLike foreign l (ground (arith, h, e)))
  | inr e ↦ absurd (ground (arith, h, e))
]

IsLike-agree :
    (foreign : Phone) (l : List (String × String))
    → All (λ (f : String × String). f.1 ≡ val foreign f.0) l
    → agree l foreign ≡ true
unfolding agree
IsLike-agree foreign [] h = refl
IsLike-agree foreign ((k, v) ∷ l) h =
    rw ((eq_iff v (val foreign k)).1 h.0) (IsLike-agree foreign l h.1)

-- What the search in `l` gives: a phone that is like `foreign` and known by its name, or an error where
-- there is none.
abbrev pub IsBest : Phone → List (String × Phone) → Outcome PhoneError Phone → Type 0
IsBest foreign l (ok p) = (assoc_str p.name l ≡ some p) × IsLike foreign p
IsBest foreign l (err e) = (e ≡ cannot_map) × All (λ (x : String × Phone). ¬ IsLike foreign x.1) l

not_here :
    (l : List (String × Phone)) (k : String) (p : Phone) (name : String)
    → assoc_str k l ≡ none
    → assoc_str name l ≡ some p
    → str_eq name k ≡ false
not_here l k p name missing found = elim (Bool-cases (str_eq name k)) [
  | inl e ↦ let same = (eq_iff name k).0 e in absurd (cc)
  | inr e ↦ e
]

IsBest-later :
    (foreign : Phone) (l : List (String × Phone)) (k : String) (p : Phone)
    (o : Outcome PhoneError Phone)
    → assoc_str k l ≡ none
    → ¬ IsLike foreign p
    → IsBest foreign l o
    → IsBest foreign ((k, p) ∷ l) o
unfolding assoc_str
IsBest-later foreign l k p (ok q) missing unlike b =
    (rw (not_here l k q q.name missing b.0) b.0, b.1)
IsBest-later foreign l k p (err e) missing unlike b = (b.0, (unlike, b.1))

first_matching-IsBest :
    (foreign : Phone) (l : List (String × Phone))
    → IsDistinct l
    → All (λ (e : String × Phone). e.0 ≡ e.1.name) l
    → IsBest foreign l (first_matching foreign l)
unfolding first_matching match_features assoc_str
first_matching-IsBest foreign [] d n = (refl, tt)
first_matching-IsBest foreign ((k, p) ∷ l) d n = elim (Bool-cases (agree p.features foreign)) [
  | inl e ↦ rw e (rw (← n.0) (rw (eq_refl k) refl), agree-IsLike foreign p.features e)
  | inr e ↦ rw e (
      IsBest-later foreign l k p (first_matching foreign l) d.0
        (λ like. false≢true (sym e ∙ IsLike-agree foreign p.features like))
        (first_matching-IsBest foreign l d.1 n.1))
]

-- What `map_phone` returns, for the phone found: the name of a phone of the other set that is like the
-- first one, or an error where that set has none.
abbrev pub IsMapped : Phone → PhoneSet → Outcome PhoneError String → Type 0
IsMapped foreign to_set (ok q) =
    (p : Phone) × (p.name ≡ q) × (member to_set q ≡ some p) × IsLike foreign p
IsMapped foreign to_set (err e) =
    (e ≡ cannot_map) × All (λ (x : String × Phone). ¬ IsLike foreign x.1) to_set.phones

IsMapped-name :
    (foreign : Phone) (to_set : PhoneSet) (o : Outcome PhoneError Phone)
    → IsBest foreign to_set.phones o
    → IsMapped foreign to_set (o >>= λ p. ok p.name)
unfolding member
IsMapped-name foreign to_set (ok p) b = (p, refl, b.0, b.1)
IsMapped-name foreign to_set (err e) b = b

-- Between two defined sets, the second one well formed, `map_phone` sends a member of the first to the
-- name of a member of the second whose features it shares, and fails only if there is none.
pub map_phone-IsMapped :
    (ph from_name to_name : String) (s : PhoneSets) (from_set to_set : PhoneSet) (foreign : Phone)
    → find_phoneset from_name s ≡ ok from_set
    → find_phoneset to_name s ≡ ok to_set
    → member from_set ph ≡ some foreign
    → IsWellFormed to_set
    → IsMapped foreign to_set (map_phone ph from_name to_name s)
unfolding map_phone or_not_a_member find_matched_phone
map_phone-IsMapped ph from_name to_name s from_set to_set foreign f t m w =
    rw (f, t, m)
      (IsMapped-name foreign to_set (first_matching foreign to_set.phones)
        (first_matching-IsBest foreign to_set.phones w.distinct w.named))
