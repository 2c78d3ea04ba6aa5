-- ===== src/Phones/Reached.antt =====
-- The states of the phone sets that the commands of Phone.cc reach, and what a change of silences does.
use speech_synthesis_system.Base.{
  ℕ, ◌<◌, String, ◌≡◌, refl, subst, Option, none, some, Outcome, ok, err, ◌>>=◌, List, [], ◌∷◌,
  ◌++◌, length, get_elem?, set, arith, length-set, length-append, All-set, All-get_elem?,
  All-append,
}
use speech_synthesis_system.Phones.Set.{
  Symbols, PhoneError, not_selected, PhoneSet, build_phoneset, feat_val,
}
use speech_synthesis_system.Phones.State.{
  PhoneSets, no_sets, set_at, add_set, make_phoneset, current_place, lisp_set_silence, place_of,
  lisp_select_phoneset,
}
use speech_synthesis_system.Phones.Legal.{
  IsWellFormed, Ensures, Ensures-bind, build_phoneset-IsWellFormed,
}
use speech_synthesis_system.Phones.Sharing.{
  IsPlace, or_not_defined, IsSound, no_sets-IsSound, All-lt-more, ps_add_def-All, built-add_set,
  place_of-lt,
}

pub data Reached : PhoneSets → Type 0 where
  start : Reached no_sets
  make :
      {s t : PhoneSets} (name : String) (features phones : List (String × Symbols))
      → Reached s
      → make_phoneset name features phones s ≡ ok t
      → Reached t
  select :
      {s t : PhoneSets} (name : String) → Reached s → lisp_select_phoneset name s ≡ ok t → Reached t
  silence :
      {s t : PhoneSets} (sils : Symbols) → Reached s → lisp_set_silence sils s ≡ ok t → Reached t

add_set-IsSound :
    (ps : PhoneSet) (s : PhoneSets) → IsWellFormed ps → IsSound s → IsSound (add_set ps s)
unfolding add_set
add_set-IsSound ps s w v =
    let more = length-append s.built (ps ∷ []) in
    record {
      closed = rw (built-add_set ps s) (
          ps_add_def-All (λ e. e.1 < length (s.built ++ ps ∷ [])) ps.psetname (length s.built)
            (record s { built = s.built ++ ps ∷ [] }) (λ j. omega (arith, more))
            (All-lt-more (length s.built) _ s.set_list (omega (arith, more)) v.closed));
      chosen = rw (built-add_set ps s) (omega (arith, more));
      formed = rw (built-add_set ps s) (All-append IsWellFormed s.built (ps ∷ []) v.formed (w, tt));
    }

make_phoneset-IsSound :
    (name : String) (features phones : List (String × Symbols)) (s : PhoneSets)
    → IsSound s
    → Ensures IsSound (make_phoneset name features phones s)
unfolding make_phoneset
make_phoneset-IsSound name features phones s v =
    Ensures-bind IsWellFormed IsSound (build_phoneset name features phones) _
      (build_phoneset-IsWellFormed name features phones) λ ps w. add_set-IsSound ps s w v

select_found :
    (name : String) (s : PhoneSets) (place : Outcome PhoneError ℕ)
    → IsSound s
    → place_of name s ≡ place
    → Ensures IsSound (place >>= λ i. ok (record s { current = some i }))
select_found name s (ok i) v h = record {
  closed = v.closed;
  chosen = place_of-lt name s i v h;
  formed = v.formed;
}
select_found name s (err e) v h = tt

lisp_select_phoneset-IsSound :
    (name : String) (s : PhoneSets) → IsSound s → Ensures IsSound (lisp_select_phoneset name s)
unfolding lisp_select_phoneset
lisp_select_phoneset-IsSound name s v = select_found name s (place_of name s) v refl

abbrev pub with_silences : Symbols → PhoneSet → PhoneSet
with_silences sils ps = record ps { silences = sils }

with_silences-IsWellFormed :
    (sils : Symbols) (ps : PhoneSet) → IsWellFormed ps → IsWellFormed (with_silences sils ps)
unfolding feat_val
with_silences-IsWellFormed sils ps w = record {
  distinct = w.distinct;
  named = w.named;
  legal = w.legal;
}

place_lt :
    (n : ℕ) (chosen : Option ℕ) (i : ℕ)
    → IsPlace n chosen
    → (if_chosen : Outcome PhoneError ℕ)
    → if_chosen ≡ elim chosen [ none ↦ err not_selected | some j ↦ ok j ]
    → if_chosen ≡ ok i
    → i < n
place_lt n none i p o e h = absurd (cc)
place_lt n (some j) i p o e h = let same : j ≡ i = cc in omega (arith, p, same)

pub current_place-lt :
    (s : PhoneSets) (i : ℕ) → IsSound s → current_place s ≡ ok i → i < length s.built
unfolding current_place
current_place-lt s i v h = place_lt (length s.built) s.current i v.chosen (current_place s) refl h

-- The sets after the current one, at place `i`, has got new silences.
abbrev pub silenced : Symbols → PhoneSets → ℕ → PhoneSet → PhoneSets
silenced sils s i ps = record s { built = set s.built i (with_silences sils ps) }

silenced-IsSound :
    (sils : Symbols) (s : PhoneSets) (i : ℕ) (ps : PhoneSet)
    → IsSound s
    → get_elem? s.built i ≡ some ps
    → IsSound (silenced sils s i ps)
silenced-IsSound sils s i ps v e =
    let same = length-set s.built i (with_silences sils ps) in
    record {
      closed = rw same v.closed;
      chosen = rw same v.chosen;
      formed =
          All-set IsWellFormed s.built i (with_silences sils ps)
            (with_silences-IsWellFormed sils ps
              (All-get_elem? IsWellFormed s.built i ps v.formed e))
            v.formed;
    }

silence_found :
    (sils : Symbols) (s : PhoneSets) (i : ℕ) (found : Option PhoneSet)
    → IsSound s
    → get_elem? s.built i ≡ found
    → Ensures IsSound (or_not_defined found >>= λ ps. ok (silenced sils s i ps))
silence_found sils s i none v e = tt
silence_found sils s i (some ps) v e = silenced-IsSound sils s i ps v e

Ensures-any : {A : Type 0} (o : Outcome PhoneError A) → Ensures (λ (a : A). Unit) o
Ensures-any (ok a) = tt
Ensures-any (err e) = tt

lisp_set_silence-IsSound :
    (sils : Symbols) (s : PhoneSets) → IsSound s → Ensures IsSound (lisp_set_silence sils s)
unfolding lisp_set_silence set_at
lisp_set_silence-IsSound sils s v =
    Ensures-bind (λ i. Unit) IsSound (current_place s) _ (Ensures-any (current_place s))
      (λ i h. silence_found sils s i (get_elem? s.built i) v refl)

-- In every state that the commands reach, every pointer leads to a set and every set is well formed.
pub Reached-IsSound : {s : PhoneSets} → Reached s → IsSound s
Reached-IsSound start = no_sets-IsSound
Reached-IsSound (make {s} name features phones r h) =
    subst (Ensures IsSound) h (make_phoneset-IsSound name features phones s (Reached-IsSound r))
Reached-IsSound (select {s} name r h) =
    subst (Ensures IsSound) h (lisp_select_phoneset-IsSound name s (Reached-IsSound r))
Reached-IsSound (silence {s} sils r h) =
    subst (Ensures IsSound) h (lisp_set_silence-IsSound sils s (Reached-IsSound r))
