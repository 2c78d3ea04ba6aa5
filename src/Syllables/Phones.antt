-- ===== src/Syllables/Phones.antt =====
-- `lex_syllabify` of lex_aux.cc puts every phone into one syllable, in order.
use speech_synthesis_system.Base.{
  ℕ, String, ◌≡◌, ◌≢◌, refl, sym, ap, ◌∙◌, false, Outcome, ok, err, ◌>>=◌, List, [], ◌∷◌, ◌++◌,
  reverse, reverse-cons, append_assoc, append-nil, Bool-cases, inl, inr, All, All-append,
}
use speech_synthesis_system.Phones.Set.{Symbols, PhoneError}
use speech_synthesis_system.Phones.State.{PhoneSets}
use speech_synthesis_system.Syllables.Split.{Syllable, syl_breakable, syllabify_loop}

-- The phones of the syllables, one after another.
abbrev pub phones_of : List Syllable → Symbols
phones_of [] = []
phones_of (syl ∷ syls) = syl.phones ++ phones_of syls

phones_of-append : (xs ys : List Syllable) → phones_of (xs ++ ys) ≡ phones_of xs ++ phones_of ys
phones_of-append [] ys = refl
phones_of-append (x ∷ xs) ys =
    ap (λ l. x.phones ++ l) (phones_of-append xs ys)
    ∙ sym (append_assoc x.phones (phones_of xs) (phones_of ys))

phones_of-reverse :
    (syls : List Syllable) (syl : Syllable)
    → phones_of (reverse (syl ∷ syls)) ≡ phones_of (reverse syls) ++ syl.phones
phones_of-reverse syls syl =
    ap phones_of (reverse-cons syl syls)
    ∙ phones_of-append (reverse syls) (syl ∷ [])
    ∙ ap (λ l. phones_of (reverse syls) ++ l) (append-nil syl.phones)

-- What the result says, where there is one.
abbrev pub Gives : (List Syllable → Type 0) → Outcome PhoneError (List Syllable) → Type 0
Gives P (ok syls) = P syls
Gives P (err e) = Unit

pub Gives-bind :
    {A : Type 0} (P : List Syllable → Type 0) (o : Outcome PhoneError A)
    (k : A → Outcome PhoneError (List Syllable))
    → ((a : A) → o ≡ ok a → Gives P (k a))
    → Gives P (o >>= k)
Gives-bind P (ok a) k h = h a refl
Gives-bind P (err e) k h = tt

append-cons_nonempty : (front : Symbols) (x : String) → front ++ x ∷ [] ≢ []
append-cons_nonempty [] x h = cc
append-cons_nonempty (first ∷ front) x h = cc

-- Nothing of a syllable is left behind when the phones are at their end.
abbrev pub IsClosed : Symbols → Symbols → Type 0
IsClosed [] syl = syl ≡ []
IsClosed (x ∷ p) syl = Unit

breakable_last :
    (s : PhoneSets) (syl p : Symbols) → syl_breakable s syl p ≡ ok false → IsClosed p syl
unfolding syl_breakable
breakable_last s syl [] h = absurd (cc)
breakable_last s syl (x ∷ p) h = tt

IsClosed-new : (p : Symbols) → IsClosed p []
IsClosed-new [] = refl
IsClosed-new (x ∷ p) = tt

shift :
    (front syl p : Symbols) (x : String)
    → (front ++ reverse (x ∷ syl)) ++ p ≡ front ++ (reverse syl ++ x ∷ p)
shift front syl p x =
    append_assoc front (reverse (x ∷ syl)) p
    ∙ ap (λ l. front ++ l)
        (ap (λ l. l ++ p) (reverse-cons x syl) ∙ append_assoc (reverse syl) (x ∷ []) p)

abbrev pub IsStressed : List Syllable → Type 0
IsStressed [] = Unit
IsStressed (first ∷ later) = (first.stress ≡ 1) × All (λ syl. syl.stress ≡ 0) later

-- The stress of a syllable that is put behind these.
abbrev pub IsNext : List Syllable → ℕ → Type 0
IsNext [] stress = stress ≡ 1
IsNext (first ∷ later) stress = stress ≡ 0

IsStressed-last :
    (syls : List Syllable) (syl : Syllable)
    → IsStressed syls
    → IsNext syls syl.stress
    → IsStressed (syls ++ syl ∷ [])
IsStressed-last [] syl h n = (n, tt)
IsStressed-last (first ∷ later) syl h n = (h.0, All-append _ later (syl ∷ []) h.1 (n, tt))

IsNext-zero : (syls : List Syllable) (syl : Syllable) → IsNext (syls ++ syl ∷ []) 0
IsNext-zero [] syl = refl
IsNext-zero (first ∷ later) syl = refl

-- The syllables hold these phones in order, each at least one, and the stress is on the first syllable.
pub record IsSyllabified (phones : Symbols) (syls : List Syllable) : Type 0 where
  pub in_order : phones_of syls ≡ phones
  pub inhabited : All (λ (syl : Syllable). syl.phones ≢ []) syls
  pub stressed : IsStressed syls

reverse-nonempty : (x : String) (syl : Symbols) → reverse (x ∷ syl) ≢ []
reverse-nonempty x syl h = append-cons_nonempty (reverse syl) x (sym (reverse-cons x syl) ∙ h)

-- The syllable that ends with `x`.
abbrev pub ended : String → Symbols → ℕ → Syllable
ended x syl stress = record { phones = reverse (x ∷ syl); stress = stress }

-- The syllables so far, with one more.
IsSyllabified-more :
    (front : Symbols) (syls : List Syllable) (x : String) (syl : Symbols) (stress : ℕ)
    → IsSyllabified front (reverse syls)
    → IsNext (reverse syls) stress
    → IsSyllabified (front ++ reverse (x ∷ syl)) (reverse (ended x syl stress ∷ syls))
IsSyllabified-more front syls x syl stress v n =
    let added = ended x syl stress in
    record {
      in_order = phones_of-reverse syls added ∙ ap (λ l. l ++ reverse (x ∷ syl)) v.in_order;
      inhabited =
          rw (reverse-cons added syls)
            (All-append _ (reverse syls) (added ∷ []) v.inhabited (reverse-nonempty x syl, tt));
      stressed = rw (reverse-cons added syls) (IsStressed-last (reverse syls) added v.stressed n);
    }

IsNext-more : (syls : List Syllable) (syl : Syllable) → IsNext (reverse (syl ∷ syls)) 0
IsNext-more syls syl = rw (reverse-cons syl syls) (IsNext-zero (reverse syls) syl)

Gives-same :
    {l l' : Symbols} (o : Outcome PhoneError (List Syllable))
    → l ≡ l'
    → Gives (IsSyllabified l) o
    → Gives (IsSyllabified l') o
Gives-same o e g = rw (← e) g

pub syllabify_loop-IsSyllabified :
    (s : PhoneSets) (p syl front : Symbols) (syls : List Syllable) (stress : ℕ)
    → IsClosed p syl
    → IsSyllabified front (reverse syls)
    → IsNext (reverse syls) stress
    → Gives (IsSyllabified (front ++ (reverse syl ++ p))) (syllabify_loop s p syl syls stress)
unfolding syllabify_loop
syllabify_loop-IsSyllabified s [] syl front syls stress c v n = rw c (rw (append-nil front) v)
syllabify_loop-IsSyllabified s (x ∷ p) syl front syls stress c v n =
    Gives-bind _ (syl_breakable s (x ∷ syl) p) _ λ b h. elim (Bool-cases b) [
      | inl e ↦ rw e (
          Gives-same (syllabify_loop s p [] (ended x syl stress ∷ syls) 0) (shift front syl p x) (
            syllabify_loop-IsSyllabified s p [] (front ++ reverse (x ∷ syl))
              (ended x syl stress ∷ syls) 0 (IsClosed-new p)
              (IsSyllabified-more front syls x syl stress v n)
              (IsNext-more syls (ended x syl stress))))
      | inr e ↦ rw e (
          Gives-same (syllabify_loop s p (x ∷ syl) syls stress)
            (sym (append_assoc front (reverse (x ∷ syl)) p) ∙ shift front syl p x)
            (syllabify_loop-IsSyllabified s p (x ∷ syl) front syls stress
              (breakable_last s (x ∷ syl) p (h ∙ ap ok e)) v n))
    ]
