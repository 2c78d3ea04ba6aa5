-- ===== src/Phones/Legal.antt =====
-- What `make_phoneset` of Phone.cc has checked of every set that it builds.
use speech_synthesis_system.Base.{
  String, ◌≡◌, refl, ◌∙◌, true, not, Outcome, ok, err, ◌>>=◌, List, [], ◌∷◌, length, str_eq, eq_iff,
  ◌==◌, arith, Bool-cases, inl, inr, All, Option-cases,
}
use speech_synthesis_system.Phones.Set.{
  Symbols, PhoneError, Phone, PhoneSet, assoc_str, add_item, add_feat, feat_val, add_phone,
  set_feature, set_features, set_values, or_multiply_defined, define_phone, define_phones,
  build_phoneset, empty_set,
}
use speech_synthesis_system.Phones.Numbers.{IsDistinct}

-- Each value of the phone is one that the set defines for the feature.
abbrev pub IsLegal : PhoneSet → Phone → Type 0
IsLegal ps p = All (λ (f : String × String). feat_val ps f.0 f.1 ≡ true) p.features

pub record IsWellFormed (ps : PhoneSet) : Type 0 where
  pub distinct : IsDistinct ps.phones
  pub named : All (λ (e : String × Phone). e.0 ≡ e.1.name) ps.phones
  pub legal : All (λ (e : String × Phone). IsLegal ps e.1) ps.phones

add_item-All :
    (P : String × String → Type 0) (f v : String) (l : List (String × String))
    → ((k : String) → f ≡ k → P (k, v))
    → All P l
    → All P (add_item f v l)
unfolding add_item
add_item-All P f v [] h a = (h f refl, tt)
add_item-All P f v ((k, w) ∷ l) h a = elim (Bool-cases (str_eq f k)) [
  | inl e ↦ rw e (h k ((eq_iff f k).0 e), a.1)
  | inr e ↦ rw e (a.0, add_item-All P f v l h a.1)
]

-- What holds of the result, if there is one.
abbrev pub Ensures {ℓ} : {A : Type ℓ} → (A → Type 0) → Outcome PhoneError A → Type 0
Ensures P (ok a) = P a
Ensures P (err e) = Unit

pub Ensures-bind {ℓ κ} :
    {A : Type ℓ} {B : Type κ} (P : A → Type 0) (Q : B → Type 0) (o : Outcome PhoneError A)
    (k : A → Outcome PhoneError B)
    → Ensures P o
    → ((a : A) → P a → Ensures Q (k a))
    → Ensures Q (o >>= k)
Ensures-bind P Q (ok a) k h step = step a h
Ensures-bind P Q (err e) k h step = tt

set_values-IsLegal :
    (ps : PhoneSet) (features : List (String × Symbols)) (pv : Symbols) (p : Phone)
    → IsLegal ps p
    → Ensures (λ q. IsLegal ps q × (q.name ≡ p.name)) (set_values ps features pv p)
unfolding set_values add_feat
set_values-IsLegal ps [] pv p h = (h, refl)
set_values-IsLegal ps ((feat, vals) ∷ fs) [] p h = tt
set_values-IsLegal ps ((feat, vals) ∷ fs) (v ∷ pv) p h = elim (Bool-cases (feat_val ps feat v)) [
  | inl e ↦ rw e (
      set_values-IsLegal ps fs pv (add_feat p feat v)
        (add_item-All (λ f. feat_val ps f.0 f.1 ≡ true) feat v p.features (λ k s. rw (← s) e) h))
  | inr e ↦ rw e tt
]

add_phone-IsWellFormed :
    (ps : PhoneSet) (p : Phone)
    → IsWellFormed ps
    → IsLegal ps p
    → Ensures IsWellFormed (or_multiply_defined (add_phone p ps))
unfolding or_multiply_defined add_phone feat_val
add_phone-IsWellFormed ps p w h = elim (Option-cases (assoc_str p.name ps.phones)) [
  | inl e ↦
      rw (e, add_phone)
        (record { distinct = (e, w.distinct); named = (refl, w.named); legal = (h, w.legal) })
  | inr (old, e) ↦ rw (e, add_phone) tt
]

define_phone-IsWellFormed :
    (features : List (String × Symbols)) (ps : PhoneSet) (name : String) (vals : Symbols)
    → IsWellFormed ps
    → Ensures IsWellFormed (define_phone features ps name vals)
unfolding define_phone
define_phone-IsWellFormed features ps name vals w =
    elim (Bool-cases (not (length vals == length features))) [
      | inl e ↦ rw e tt
      | inr e ↦ rw e (
          Ensures-bind _ IsWellFormed
            (set_values ps features vals (record { name = name; features = [] })) _
            (set_values-IsLegal ps features vals (record { name = name; features = [] }) tt)
            λ p h. add_phone-IsWellFormed ps p w h.0)
    ]

define_phones-IsWellFormed :
    (features phones : List (String × Symbols)) (ps : PhoneSet)
    → IsWellFormed ps
    → Ensures IsWellFormed (define_phones features phones ps)
unfolding define_phones
define_phones-IsWellFormed features [] ps w = w
define_phones-IsWellFormed features ((name, vals) ∷ l) ps w =
    Ensures-bind IsWellFormed IsWellFormed (define_phone features ps name vals) _
      (define_phone-IsWellFormed features ps name vals w)
      λ ps' w'. define_phones-IsWellFormed features l ps' w'

phones-set_features :
    (fs : List (String × Symbols)) (ps : PhoneSet) → (set_features fs ps).phones ≡ ps.phones
unfolding set_features set_feature
phones-set_features [] ps = refl
phones-set_features ((name, vals) ∷ fs) ps =
    phones-set_features fs (set_feature name vals ps) ∙ ground arith

IsWellFormed-no_phones : (ps : PhoneSet) → ps.phones ≡ [] → IsWellFormed ps
IsWellFormed-no_phones ps e = record { distinct = rw e tt; named = rw e tt; legal = rw e tt }

-- Every set that `make_phoneset` builds has no name twice, stands under the names of its phones, and
-- gives each phone only values that are defined for the feature.
pub build_phoneset-IsWellFormed :
    (name : String) (features phones : List (String × Symbols))
    → Ensures IsWellFormed (build_phoneset name features phones)
unfolding build_phoneset
build_phoneset-IsWellFormed name features phones =
    define_phones-IsWellFormed features phones (set_features features (empty_set name))
      (IsWellFormed-no_phones _ (phones-set_features features (empty_set name)))
