-- ===== src/Builtin/Loops.antt =====
-- The counting loops of ff.cc over lists of items in which the item where they stop is known.
use speech_synthesis_system.Base.{
  ℕ, ◌+◌, ◌≡◌, refl, sym, ap, ◌∙◌, Bool, true, false, some, List, [], ◌∷◌, ◌++◌, length,
  length-reverse, reverse, reverse-cons, append_assoc, All-reverse, if◌then◌else◌, arith, All,
}
use speech_synthesis_system.Builtin.Items.{Items}
use speech_synthesis_system.Builtin.Sizes.{steps_to}
use speech_synthesis_system.Builtin.Counts.{plus_if, count_before, count_with}

module _ (u : Items) where
  -- The items that pass the test.
  abbrev pub number_of : (u.Item → Bool) → List u.Item → ℕ
  number_of test [] = 0
  number_of test (p ∷ ps) = plus_if u (test p) (number_of test ps)

  plus_if-add : (b : Bool) (m n : ℕ) → plus_if u b m + n ≡ m + plus_if u b n
  plus_if-add true m n = omega arith
  plus_if-add false m n = refl

  pub number_of-append :
      (test : u.Item → Bool) (ps qs : List u.Item)
      → number_of test (ps ++ qs) ≡ number_of test ps + number_of test qs
  number_of-append test [] qs = omega arith
  number_of-append test (p ∷ ps) qs =
      ap (plus_if u (test p)) (number_of-append test ps qs)
      ∙ add_out (test p) (number_of test ps) (number_of test qs)
    where
      add_out : (b : Bool) (m n : ℕ) → plus_if u b (m + n) ≡ plus_if u b m + n
      add_out true m n = omega arith
      add_out false m n = refl

  pub number_of-reverse :
      (test : u.Item → Bool) (ps : List u.Item) → number_of test (reverse ps) ≡ number_of test ps
  number_of-reverse test [] = refl
  number_of-reverse test (p ∷ ps) = rw (reverse-cons p ps) (
      number_of-append test (reverse ps) (p ∷ [])
      ∙ ap (λ n. n + plus_if u (test p) 0) (number_of-reverse test ps)
      ∙ sym (plus_if-add (test p) (number_of test ps) 0)
      ∙ omega arith)

  -- The item is not the one where a loop stops.
  abbrev pub IsNot : u.Item → u.Item → Type 0
  IsNot f p = u.same p f ≡ false

  module _ (f p : u.Item) (ps : List u.Item) (count : ℕ) (h : IsNot f p) where
    steps_to-next : steps_to u (some f) (p ∷ ps) count ≡ steps_to u (some f) ps (count + 1)
    unfolding steps_to
    steps_to-next = ap (λ (b : Bool). if b then count else steps_to u (some f) ps (count + 1)) h

    count_before-next :
        (test : u.Item → Bool)
        → count_before u test (some f) (p ∷ ps) count
          ≡ count_before u test (some f) ps (plus_if u (test p) count)
    unfolding count_before
    count_before-next test =
        ap
          (λ (b : Bool).
            if b then count else count_before u test (some f) ps (plus_if u (test p) count))
          h

    count_with-next :
        (test : u.Item → Bool)
        → count_with u test (some f) (p ∷ ps) count
          ≡ count_with u test (some f) ps (plus_if u (test p) count)
    unfolding count_with
    count_with-next test =
        ap
          (λ (b : Bool).
            if b
            then plus_if u (test p) count
            else count_with u test (some f) ps (plus_if u (test p) count))
          h

  pub steps_to-IsNot :
      (f : u.Item) (ps rest : List u.Item) (count : ℕ)
      → u.same f f ≡ true
      → All (IsNot f) ps
      → steps_to u (some f) (ps ++ f ∷ rest) count ≡ count + length ps
  unfolding steps_to
  steps_to-IsNot f [] rest count e h = rw (e, steps_to) (omega arith)
  steps_to-IsNot f (p ∷ ps) rest count e h =
      steps_to-next f p (ps ++ f ∷ rest) count h.0
      ∙ steps_to-IsNot f ps rest (count + 1) e h.1
      ∙ omega arith

  pub count_before-IsNot :
      (test : u.Item → Bool) (f : u.Item) (ps rest : List u.Item) (count : ℕ)
      → u.same f f ≡ true
      → All (IsNot f) ps
      → count_before u test (some f) (ps ++ f ∷ rest) count ≡ count + number_of test ps
  unfolding count_before
  count_before-IsNot test f [] rest count e h = rw (e, count_before) (omega arith)
  count_before-IsNot test f (p ∷ ps) rest count e h =
      count_before-next f p (ps ++ f ∷ rest) count h.0 test
      ∙ count_before-IsNot test f ps rest (plus_if u (test p) count) e h.1
      ∙ plus_if-add (test p) count (number_of test ps)

  pub count_with-IsNot :
      (test : u.Item → Bool) (f : u.Item) (ps rest : List u.Item) (count : ℕ)
      → u.same f f ≡ true
      → All (IsNot f) ps
      → count_with u test (some f) (ps ++ f ∷ rest) count ≡ count + number_of test (ps ++ f ∷ [])
  unfolding count_with
  count_with-IsNot test f [] rest count e h =
      rw (e, count_with) (omega (arith, plus_if-add (test f) count 0))
  count_with-IsNot test f (p ∷ ps) rest count e h =
      count_with-next f p (ps ++ f ∷ rest) count h.0 test
      ∙ count_with-IsNot test f ps rest (plus_if u (test p) count) e h.1
      ∙ plus_if-add (test p) count (number_of test (ps ++ f ∷ []))

  -- `f` is the first of the items that end with `nn`, and none of the others; `e` is the last of those
  -- that begin with `nn`, and none of the others.
  abbrev pub IsFirst : u.Item → List u.Item → u.Item → Type 0
  IsFirst f [] nn = f ≡ nn
  IsFirst f (p ∷ before) nn = (f ≡ p) × All (IsNot f) (nn ∷ before)

  abbrev pub IsLast : u.Item → u.Item → List u.Item → Type 0
  IsLast e nn [] = e ≡ nn
  IsLast e nn (p ∷ after) = IsNot e nn × IsLast e p after

  pub first_back :
      (f p : u.Item) (before sooner : List u.Item)
      → f ≡ p
      → reverse (p ∷ before) ++ sooner ≡ reverse before ++ f ∷ sooner
  first_back f p before sooner h =
      rw (h, reverse-cons p before) (append_assoc (reverse before) (p ∷ []) sooner)

  module _ (same_lem : (p : u.Item) → u.same p p ≡ true) (test : u.Item → Bool) where
    pub steps_to-IsLast :
        (e nn : u.Item) (after later : List u.Item) (count : ℕ)
        → IsLast e nn after
        → steps_to u (some e) (nn ∷ after ++ later) count ≡ count + length after
    steps_to-IsLast e nn [] later count h =
        ap (λ x. steps_to u (some e) (x ∷ later) count) (sym h)
        ∙ steps_to-IsNot e [] later count (same_lem e) tt
    steps_to-IsLast e nn (p ∷ after) later count h =
        steps_to-next e nn (p ∷ after ++ later) count h.0
        ∙ steps_to-IsLast e p after later (count + 1) h.1
        ∙ omega arith

    pub count_with-IsLast :
        (e nn : u.Item) (after later : List u.Item) (count : ℕ)
        → IsLast e nn after
        → count_with u test (some e) (nn ∷ after ++ later) count
          ≡ count + number_of test (nn ∷ after)
    count_with-IsLast e nn [] later count h =
        ap (λ x. count_with u test (some e) (x ∷ later) count) (sym h)
        ∙ count_with-IsNot test e [] later count (same_lem e) tt
        ∙ ap (λ x. count + plus_if u (test x) 0) h
    count_with-IsLast e nn (p ∷ after) later count h =
        count_with-next e nn (p ∷ after ++ later) count h.0 test
        ∙ count_with-IsLast e p after later (plus_if u (test nn) count) h.1
        ∙ plus_if-add (test nn) count (number_of test (p ∷ after))

    -- The items before `nn`, from the last one back, and those before the phrase.
    pub steps_to-IsFirst :
        (f nn : u.Item) (before sooner : List u.Item)
        → IsFirst f before nn
        → steps_to u (some f) (nn ∷ reverse before ++ sooner) 0 ≡ length before
    steps_to-IsFirst f nn [] sooner h =
        ap (λ x. steps_to u (some f) (x ∷ sooner) 0) (sym h)
        ∙ steps_to-IsNot f [] sooner 0 (same_lem f) tt
        ∙ omega arith
    steps_to-IsFirst f nn (p ∷ before) sooner h =
        ap (λ l. steps_to u (some f) (nn ∷ l) 0) (first_back f p before sooner h.0)
        ∙ steps_to-IsNot f (nn ∷ reverse before) sooner 0 (same_lem f)
            (h.1.0, All-reverse (IsNot f) before h.1.1)
        ∙ omega (arith, length-reverse before)
