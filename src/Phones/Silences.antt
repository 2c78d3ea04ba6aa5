-- ===== src/Phones/Silences.antt =====
-- `lisp_set_silence` of Phone.cc writes through the pointer to the current set: who sees the change.
use speech_synthesis_system.Base.{
  ℕ, ◌<◌, String, ◌≡◌, ◌≢◌, refl, sym, ap, ◌∙◌, Bool, false, some, Outcome, ok, err, ◌>>=◌, length,
  get_elem?, ◌==◌, if◌then◌else◌, arith, Bool-cases, inl, inr, get_elem?-lt, get_elem?-set_same,
  get_elem?-set_other,
}
use speech_synthesis_system.Phones.Set.{Symbols, PhoneError, PhoneSet}
use speech_synthesis_system.Phones.State.{
  PhoneSets, set_at, current_place, current_phoneset, lisp_set_silence, place_of, find_phoneset,
}
use speech_synthesis_system.Phones.Sharing.{IsSound, set_at-get_elem?}
use speech_synthesis_system.Phones.Reached.{with_silences, silenced, current_place-lt}

-- The name leads to the object at place `i`.
abbrev pub leads_to : ℕ → Outcome PhoneError ℕ → Bool
leads_to i (ok k) = k == i
leads_to i (err e) = false

abbrev pub renewed : Symbols → Outcome PhoneError PhoneSet → Outcome PhoneError PhoneSet
renewed sils (ok ps) = ok (with_silences sils ps)
renewed sils (err e) = err e

set_at-same :
    (sils : Symbols) (s : PhoneSets) (i : ℕ) (ps : PhoneSet)
    → get_elem? s.built i ≡ some ps
    → i < length s.built
    → set_at (silenced sils s i ps) i ≡ renewed sils (set_at s i)
set_at-same sils s i ps e h =
    set_at-get_elem? (silenced sils s i ps) i _
      (get_elem?-set_same s.built i (with_silences sils ps) h)
    ∙ sym (ap (renewed sils) (set_at-get_elem? s i (some ps) e))

set_at-other :
    (sils : Symbols) (s : PhoneSets) (i j : ℕ) (ps : PhoneSet)
    → i ≢ j
    → set_at (silenced sils s i ps) j ≡ set_at s j
set_at-other sils s i j ps h =
    set_at-get_elem? (silenced sils s i ps) j _
      (get_elem?-set_other s.built i j (with_silences sils ps) h)
    ∙ sym (set_at-get_elem? s j _ refl)

find_at :
    (sils : Symbols) (s : PhoneSets) (i : ℕ) (ps : PhoneSet) (place : Outcome PhoneError ℕ)
    → get_elem? s.built i ≡ some ps
    → i < length s.built
    → (place >>= λ k. set_at (silenced sils s i ps) k) ≡ (
        if leads_to i place
        then renewed sils (place >>= λ k. set_at s k)
        else (place >>= λ k. set_at s k))
find_at sils s i ps (err e) found h = refl
find_at sils s i ps (ok k) found h = elim (Bool-cases (k == i)) [
  | inl e ↦ let same : k ≡ i = ground arith in rw (e, same) (set_at-same sils s i ps found h)
  | inr e ↦ rw e (set_at-other sils s i k ps (λ same. ground (arith, same)))
]

place_now :
    (sils : Symbols) (s : PhoneSets) (i : ℕ) (ps : PhoneSet) (place : Outcome PhoneError ℕ)
    → place ≡ ok i
    → current_place (silenced sils s i ps) ≡ place
    → get_elem? s.built i ≡ some ps
    → i < length s.built
    → (current_place (silenced sils s i ps) >>= λ k. set_at (silenced sils s i ps) k)
      ≡ renewed sils (place >>= λ k. set_at s k)
place_now sils s i ps place c same found h = rw (same, c) (set_at-same sils s i ps found h)

-- In a sound state with a current set, `lisp_set_silence` returns; the current set has the new silences,
-- and so has every name that leads to the same object, while the other names find what they found.
pub lisp_set_silence-find_phoneset :
    (sils : Symbols) (s : PhoneSets) (i : ℕ)
    → IsSound s
    → current_place s ≡ ok i
    → (t : PhoneSets) × (lisp_set_silence sils s ≡ ok t)
      × (current_phoneset t ≡ renewed sils (current_phoneset s))
      × ((j : String)
          → find_phoneset j t ≡ (
              if leads_to i (place_of j s)
              then renewed sils (find_phoneset j s)
              else find_phoneset j s))
unfolding lisp_set_silence current_phoneset find_phoneset place_of current_place
lisp_set_silence-find_phoneset sils s i v c =
    let h = current_place-lt s i v c in
    let (ps, found) = get_elem?-lt s.built i h in
    let here = set_at-get_elem? s i (some ps) found in
    let now = place_now sils s i ps (current_place s) c refl found h in
    (silenced sils s i ps, rw (c, here) refl, now, λ j. find_at sils s i ps (place_of j s) found h)
