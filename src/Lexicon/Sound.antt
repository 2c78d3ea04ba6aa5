-- ===== src/Lexicon/Sound.antt =====
-- The binary search of lexicon.cc in a file in any order: it ends, and what it finds is in the file.
use speech_synthesis_system.Base.{
  ℕ, zero, suc, ◌+◌, ◌-◌, ◌/◌, ◌≤◌, ◌<◌, String, ◌≡◌, ◌⊎◌, inl, inr, refl, sym, subst, true, Option,
  none, some, List, [], ◌∷◌, ltb, ◌==◌, arith, Bool-cases, All, All-mono,
}
use mathlib.Core.List.{Memᴰ}
use speech_synthesis_system.Lexicon.Entries.{
  Sign, zero_sign, Features, Entry, or_first, match_features, bl_match_entry, actual_loop,
  find_actual_entry,
}
use speech_synthesis_system.Lexicon.Cache.{Index, bl_lookup_cache}
use speech_synthesis_system.Lexicon.File.{
  Line, Compiled, line_entries, bl_find_next_entry, head_of, tail_of, end_entry, Answer, back_up,
  answer_from, bl_find_actual_entry, not_found, probe, bl_bsearch, lookup_complex,
}
use speech_synthesis_system.Lexicon.Region.{lines_after-All}
use speech_synthesis_system.Lexicon.Backing.{Sign-cases}
use speech_synthesis_system.Lexicon.Probe.{probe-zero_sign, probe-negative, probe-positive}

module _ (fcompare : String → String → Sign) (word : String) (features : Features)
    (Q : Entry → Type 0) where
  -- An entry for the word, with a property of the entries that are read.
  abbrev pub IsFor : Entry → Type 0
  IsFor e = (bl_match_entry fcompare e word ≡ zero_sign) × Q e

  abbrev pub IsForAny : Option Entry → Type 0
  IsForAny none = Unit
  IsForAny (some e) = IsFor e

  IsForAny-or_first :
      (o : Option Entry) (e : Entry) → IsForAny o → IsFor e → IsForAny (or_first o e)
  IsForAny-or_first none e o h = h
  IsForAny-or_first (some f) e o h = o

  abbrev pub IsSound : Option Entry × List Entry → Type 0
  IsSound r = IsForAny r.0 × All IsFor r.1

  actual_loop-IsSound :
      (f_entry : Option Entry) (matched entries : List Entry)
      → All Q entries
      → IsForAny f_entry
      → All IsFor matched
      → IsSound (actual_loop fcompare word features f_entry matched entries)
  unfolding actual_loop
  actual_loop-IsSound f_entry matched [] q o m = (tt, m)
  actual_loop-IsSound f_entry matched (e ∷ l) q o m =
      elim (Sign-cases (bl_match_entry fcompare e word)) [
        | inl h ↦ rw (h, actual_loop) (o, m)
        | inr (inr h) ↦ rw (h, actual_loop) (actual_loop-IsSound f_entry matched l q.1 o m)
        | inr (inl h) ↦ elim (Bool-cases (match_features features e.pos)) [
          | inl fit ↦ rw (h, actual_loop, fit) ((h, q.0), ((h, q.0), m))
          | inr fit ↦
              rw (h, actual_loop, fit)
                (actual_loop-IsSound (or_first f_entry e) (e ∷ matched) l q.1
                  (IsForAny-or_first f_entry e o (h, q.0)) ((h, q.0), m))
        ]
      ]

  All-line_entries : (ls : List Line) → All (λ l. Q l.entry) ls → All Q (line_entries ls)
  All-line_entries [] q = tt
  All-line_entries (l ∷ ls) q = (q.0, All-line_entries ls q.1)

  All-tail_of : (ls : List Line) → All (λ l. Q l.entry) ls → All (λ l. Q l.entry) (tail_of ls)
  All-tail_of [] q = tt
  All-tail_of (l ∷ ls) q = q.1

module _ (fcompare : String → String → Sign) (file : Compiled) (word : String) (features : Features)
    (Q : Entry → Type 0) where
  -- The search comes to an answer with entries that are for the word and have the property.
  abbrev pub Returns : Option Answer → Type 0
  Returns o =
      (a : Answer) × (o ≡ some a)
      × (IsForAny fcompare word features Q a.found × All (IsFor fcompare word features Q) a.matched)

  Returns-not_found : (cache : Index) → Returns (not_found fcompare file word features cache)
  Returns-not_found cache =
      (record { found = none; matched = []; index_cache = cache }, refl, (tt, tt))

  module _ (q : All (λ l. Q l.entry) file.lines) (at_end : Q (end_entry file)) where
    back_up-All :
        (f pos : ℕ)
        → pos < f
        → (ls : List Line) × (back_up fcompare file word features f pos ≡ some ls)
          × All (λ l. Q l.entry) ls
    unfolding back_up bl_find_next_entry
    back_up-All zero pos h = absurd (omega arith)
    back_up-All (suc f) pos h = elim (Bool-cases (ltb pos (file.blstart + 40))) [
      | inl e ↦ rw e (file.lines, refl, q)
      | inr e ↦
          let far : 40 ≤ pos = ground (arith, e) in
          let read : List Line = bl_find_next_entry file (pos - 40) in
          let rest =
            All-tail_of fcompare word features Q read
              (lines_after-All (λ l. Q l.entry) (file.blstart + 1) file.lines (pos - 40) q) in
          elim (Sign-cases (fcompare word (head_of file read))) [
            | inr (inl s) ↦ rw (e, s) (back_up-All f (pos - 40) (omega (arith, h, far)))
            | inl s ↦ rw (e, s) (tail_of read, refl, rest)
            | inr (inr s) ↦ rw (e, s) (tail_of read, refl, rest)
          ]
    ]

    find_actual_entry-IsSound :
        (es : List Entry)
        → All Q es
        → IsSound fcompare word features Q
            (find_actual_entry fcompare word features (end_entry file) es)
    unfolding find_actual_entry
    find_actual_entry-IsSound [] a =
        actual_loop-IsSound fcompare word features Q none [] (end_entry file ∷ []) (at_end, tt) tt
          tt
    find_actual_entry-IsSound (e ∷ es) a =
        actual_loop-IsSound fcompare word features Q none [] (e ∷ es) a tt tt

    bl_find_actual_entry-Returns :
        (cache : Index) (pos : ℕ)
        → Returns (bl_find_actual_entry fcompare file word features cache pos)
    unfolding bl_find_actual_entry answer_from
    bl_find_actual_entry-Returns cache pos =
        let (ls, e, a) = back_up-All (suc pos) pos (omega arith) in
        let sound =
          find_actual_entry-IsSound (line_entries ls)
            (All-line_entries fcompare word features Q ls a) in
        rw e (_, refl, sound)

    probe-Returns :
        (search : Index → ℕ → ℕ → ℕ → Option Answer) (cache : Index) (start mid end depth : ℕ)
        → ((c : Index) (d : ℕ) → Returns (search c start mid d))
        → ((c : Index) (d : ℕ) → Returns (search c mid end d))
        → Returns (probe fcompare file word features search cache start mid end depth)
    probe-Returns search cache start mid end depth back on =
        elim (Sign-cases (fcompare word (head_of file (bl_find_next_entry file mid)))) [
          | inl s ↦
              subst Returns
                (sym
                  (probe-negative fcompare file word features search cache start mid end depth s))
                (back _ (depth + 1))
          | inr (inl s) ↦
              subst Returns
                (sym
                  (probe-zero_sign fcompare file word features search cache start mid end depth s))
                (bl_find_actual_entry-Returns _ mid)
          | inr (inr s) ↦
              subst Returns
                (sym
                  (probe-positive fcompare file word features search cache start mid end depth s))
                (on _ (depth + 1))
        ]

    bl_bsearch-same :
        (f : ℕ) (cache : Index) (start depth : ℕ)
        → 0 < f
        → Returns (bl_bsearch fcompare file word features f cache start start depth)
    unfolding bl_bsearch
    bl_bsearch-same zero cache start depth h = absurd (omega arith)
    bl_bsearch-same (suc f) cache start depth h =
        let same : start == start ≡ true = ground arith in rw same (Returns-not_found cache)

    bl_bsearch-Returns :
        (f : ℕ) (cache : Index) (start end depth : ℕ)
        → suc (end - start) < f
        → Returns (bl_bsearch fcompare file word features f cache start end depth)
    unfolding bl_bsearch
    bl_bsearch-Returns zero cache start end depth fuel = absurd (omega arith)
    bl_bsearch-Returns (suc f) cache start end depth fuel =
        let search = bl_bsearch fcompare file word features f in
        elim (Bool-cases (start == end)) [
          | inl e ↦ rw e (Returns-not_found cache)
          | inr e ↦ elim (Bool-cases (ltb (end - start) 10)) [
            | inr n ↦
                let far : 10 ≤ end - start = ground (arith, n) in
                rw (e, n)
                  (probe-Returns search cache start (start + (end - start) / 2) end depth
                    (λ c d.
                      bl_bsearch-Returns f c start (start + (end - start) / 2) d
                        (omega (arith, far, fuel)))
                    (λ c d.
                      bl_bsearch-Returns f c (start + (end - start) / 2) end d
                        (omega (arith, far, fuel))))
            | inl n ↦ elim (Bool-cases (start == file.blstart)) [
              | inr b ↦ rw (e, n, b) (Returns-not_found cache)
              | inl b ↦
                  rw (e, n, b)
                    (probe-Returns search cache start start start depth
                      (λ c d. bl_bsearch-same f c start d (omega (arith, fuel)))
                      (λ c d. bl_bsearch-same f c start d (omega (arith, fuel))))
            ]
          ]
        ]

All-Memᴰ : (l : List Entry) → All (λ e. Memᴰ e l) l
All-Memᴰ [] = tt
All-Memᴰ (e ∷ l) = (
  Memᴰ.head refl,
  All-mono (λ x. Memᴰ x l) (λ x. Memᴰ x (e ∷ l)) l (λ x m. Memᴰ.tail m) (All-Memᴰ l),
)

All-lines :
    (Q : Entry → Type 0) (ls : List Line) → All Q (line_entries ls) → All (λ l. Q l.entry) ls
All-lines Q [] q = tt
All-lines Q (l ∷ ls) q = (q.0, All-lines Q ls q.1)

module _ (fcompare : String → String → Sign) (file : Compiled) (word : String)
    (features : Features) where
  -- An entry of the file, or what is read at its end.
  abbrev pub IsOfFile : Entry → Type 0
  IsOfFile e = Memᴰ e (line_entries file.lines) ⊎ (e ≡ end_entry file)

  -- In a file whose entries stand in any order, and with any index cache, the binary search comes to an
  -- end, and the entry that it returns, if any, and the matched entries are for the word, and are entries of
  -- the file or what is read at its end.
  pub lookup_complex-Returns :
      (cache : Index)
      → Returns fcompare file word features IsOfFile
          (lookup_complex fcompare file word features cache)
  unfolding lookup_complex
  lookup_complex-Returns cache =
      let ((start, end), depth) = bl_lookup_cache fcompare cache word 0 in
      bl_bsearch-Returns fcompare file word features IsOfFile
        (All-lines IsOfFile file.lines (
          All-mono (λ e. Memᴰ e (line_entries file.lines)) IsOfFile (line_entries file.lines)
            (λ e m. inl m) (All-Memᴰ (line_entries file.lines))))
        (inr refl) (suc (suc (end - start))) cache start end depth (omega arith)
