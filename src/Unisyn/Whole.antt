-- ===== src/Unisyn/Whole.antt =====
-- The loop of `syllabify_word` in syllabify.cc after the first nucleus: the phones between two nuclei.
use speech_synthesis_system.Base.{
  ℕ, suc, ◌+◌, ◌-◌, ◌≡◌, refl, sym, ap, ◌∙◌, true, false, Option, none, some, List, [], ◌∷◌, ◌++◌,
  reverse, reverse-cons, reverse-append, append_assoc, append-nil, length, length-append, arith,
  Bool-cases, inl, inr, All, All-append, All-append_inv,
}
use speech_synthesis_system.Unisyn.Onset.{Phone, is_nucleus, make_onset}
use speech_synthesis_system.Unisyn.Word.{
  Structure, nucleus_count, coda_from, make_coda, word_loop, onset_of, leaves,
}
use speech_synthesis_system.Unisyn.Taken.{
  IsSound, IsConsonant, taken_of, Takes, make_onset-Takes, coda_from-append, coda_from-all,
  IsBehind,
}

-- The phones of the structures, onset, nucleus and coda of each.
abbrev pub phones_of : List Structure → List Phone
phones_of [] = []
phones_of (s ∷ structs) = leaves false s ++ phones_of structs

-- A structure has one nucleus, between consonants.
abbrev pub IsProper : Structure → Type 0
IsProper s =
    (is_nucleus s.nucleus ≡ true) × (All IsConsonant (taken_of s.before) × All IsConsonant s.coda)

phones_of-append : (xs ys : List Structure) → phones_of (xs ++ ys) ≡ phones_of xs ++ phones_of ys
phones_of-append [] ys = refl
phones_of-append (x ∷ xs) ys =
    ap (λ l. leaves false x ++ l) (phones_of-append xs ys)
    ∙ sym (append_assoc (leaves false x) (phones_of xs) (phones_of ys))

phones_of-reverse :
    (s : Structure) (done : List Structure)
    → phones_of (reverse (s ∷ done)) ≡ phones_of (reverse done) ++ leaves false s
phones_of-reverse s done =
    ap phones_of (reverse-cons s done)
    ∙ phones_of-append (reverse done) (s ∷ [])
    ∙ ap (λ l. phones_of (reverse done) ++ l) (append-nil (leaves false s))

All-reverse : {A : Type 0} (P : A → Type 0) (l : List A) → All P l → All P (reverse l)
All-reverse P [] h = tt
All-reverse P (x ∷ l) h =
    rw (reverse-cons x l) (All-append P (reverse l) (x ∷ []) (All-reverse P l h.1) (h.0, tt))

length-reverse : {A : Type 0} (l : List A) → length (reverse l) ≡ length l
length-reverse [] = refl
length-reverse (x ∷ l) =
    ap length (reverse-cons x l)
    ∙ omega (arith, length-append (reverse l) (x ∷ []), length-reverse l)

-- The structures in order, behind those that are done.
pub record Finishes (done : List Structure) (phones : List Phone) (count : ℕ)
    (structs : List Structure) : Type 0 where
  pub in_order : phones_of structs ≡ phones_of (reverse done) ++ phones
  pub proper : All IsProper structs
  pub counted : length structs ≡ length done + count

-- The gap is divided into the coda of the one and the onset of the next syllable.
divided :
    (i k : ℕ) (gap left taken back : List Phone) (returned : Option ℕ)
    → i ≡ k + length gap
    → gap ≡ taken ++ left
    → returned ≡ some (i - length taken)
    → coda_from k (reverse gap ++ back) returned ≡ reverse left
divided i k gap left taken back returned place split at =
    let turned : reverse gap ++ back ≡ reverse left ++ (reverse taken ++ back) =
      ap (λ l. reverse l ++ back) split
      ∙ ap (λ l. l ++ back) (reverse-append taken left)
      ∙ append_assoc (reverse left) (reverse taken) back in
    let there : i - length taken ≡ k + length (reverse left) =
      omega (arith, place, ap length split, length-append taken left, length-reverse left) in
    rw (turned, at, there) (coda_from-append k (reverse left) (reverse taken ++ back))

with_coda : List Phone → Structure → Structure
with_coda coda s = record s { coda = coda }

-- The nucleus, then a gap, and the phones that are left, with the onset that is taken.
regroup :
    (front o : List Phone) (n l : Phone) (gap left taken ls : List Phone)
    → gap ≡ taken ++ left
    → (front ++ (o ++ n ∷ reverse left)) ++ (reverse taken ++ l ∷ ls)
      ≡ front ++ (o ++ n ∷ (reverse gap ++ l ∷ ls))
regroup front o n l gap left taken ls split =
    rw (split, reverse-append taken left) (simp append_assoc)

onset_of-taken_of : (t : Option (List Phone)) → onset_of t ≡ reverse (taken_of t)
onset_of-taken_of none = refl
onset_of-taken_of (some t) = refl

IsProper-coda :
    (s : Structure) (coda : List Phone)
    → is_nucleus s.nucleus ≡ true
    → All IsConsonant (taken_of s.before)
    → All IsConsonant coda
    → IsProper (with_coda coda s)
unfolding with_coda
IsProper-coda s coda vowel taken plain = (vowel, (taken, plain))

Finishes-last :
    (s : Structure) (done : List Structure)
    → IsProper s
    → All IsProper done
    → Finishes done (leaves false s) 1 (reverse (s ∷ done))
Finishes-last s done own proper = record {
  in_order = phones_of-reverse s done;
  proper = All-reverse IsProper (s ∷ done) (own, proper);
  counted = omega (arith, length-reverse (s ∷ done));
}

Finishes-more :
    (s : Structure) (done : List Structure) (l : Phone) (before : Option (List Phone))
    (gap left ls phones : List Phone) (count : ℕ) (structs : List Structure)
    → gap ≡ taken_of before ++ left
    → phones ≡ reverse gap ++ l ∷ ls
    → Finishes (with_coda (reverse left) s ∷ done) (onset_of before ++ l ∷ ls) count structs
    → Finishes done (onset_of s.before ++ s.nucleus ∷ phones) (suc count) structs
unfolding leaves with_coda
Finishes-more s done l before gap left ls phones count structs split at r = record {
  in_order =
      r.in_order
      ∙ ap (λ t. t ++ (onset_of before ++ l ∷ ls))
          (phones_of-reverse (with_coda (reverse left) s) done)
      ∙ rw (onset_of-taken_of before, at)
          (regroup (phones_of (reverse done)) (onset_of s.before) s.nucleus l gap left
            (taken_of before) ls split);
  proper = r.proper;
  counted = omega (arith, r.counted);
}

IsBehind-some :
    (i n : ℕ) (returned : Option ℕ) → returned ≡ some (i - n) → IsBehind returned (i + 1)
IsBehind-some i n returned e = rw e (omega arith)

pub word_loop-Finishes :
    (i : ℕ) (before ls : List Phone) (s : Structure) (k : ℕ) (gap rest phones : List Phone)
    (first_onset : Option ℕ) (done : List Structure)
    → before ≡ gap ++ s.nucleus ∷ rest
    → phones ≡ reverse gap ++ ls
    → i ≡ k + length gap
    → IsBehind first_onset k
    → All IsConsonant gap
    → is_nucleus s.nucleus ≡ true
    → All IsConsonant (taken_of s.before)
    → All IsProper done
    → All IsSound ls
    → IsSound s.nucleus
    → Finishes done (onset_of s.before ++ s.nucleus ∷ phones) (suc (nucleus_count ls)) (
        word_loop i before ls
          (some (record { struct = s; place = k; phones = phones }))
          first_onset
          done)
unfolding word_loop make_coda nucleus_count leaves with_coda
word_loop-Finishes i before [] s k gap rest phones first_onset done at_before at_phones place behind
      plain vowel taken proper sound own =
    let all = coda_from-all k phones first_onset behind in
    rw all (
      Finishes-last (with_coda phones s) done
        (IsProper-coda s phones vowel taken
          (rw (at_phones, append-nil (reverse gap)) (All-reverse IsConsonant gap plain)))
        proper)
word_loop-Finishes i before (l ∷ ls) s k gap rest phones first_onset done at_before at_phones place
      behind plain vowel taken proper sound own =
    elim (Bool-cases (is_nucleus l)) [
      | inr e ↦ rw e (
          word_loop-Finishes (i + 1) (l ∷ before) ls s k (l ∷ gap) rest phones first_onset done
            (ap (λ t. l ∷ t) at_before)
            (at_phones
              ∙ sym
                  (ap (λ t. t ++ ls) (reverse-cons l gap) ∙ append_assoc (reverse gap) (l ∷ []) ls))
            (omega (arith, place)) behind (e, plain) vowel taken proper sound.1 own)
      | inl e ↦
          let made = make_onset false i before in
          let (left, split, at) : Takes i gap made =
            rw at_before (make_onset-Takes i s.nucleus gap rest vowel own plain) in
          let (plain_taken, plain_left) =
            All-append_inv IsConsonant (taken_of made.taken) left (rw split at plain) in
          let coda : coda_from k phones made.returned ≡ reverse left =
            ap (λ t. coda_from k t made.returned) at_phones
            ∙ divided i k gap left (taken_of made.taken) (l ∷ ls) made.returned place split at in
          rw (e, coda)
            (Finishes-more s done l made.taken gap left ls phones (suc (nucleus_count ls)) _ split
              at_phones
              (word_loop-Finishes (i + 1) (l ∷ before) ls
                (record { before = made.taken; nucleus = l; coda = [] }) (i + 1) [] before ls
                made.returned (with_coda (reverse left) s ∷ done) refl refl (omega arith)
                (IsBehind-some i (length (taken_of made.taken)) made.returned at) tt e plain_taken
                (
                  IsProper-coda s (reverse left) vowel taken
                      (All-reverse IsConsonant left plain_left),
                  proper,
                )
                sound.1 sound.0))
    ]
