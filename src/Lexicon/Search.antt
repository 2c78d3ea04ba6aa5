-- ===== src/Lexicon/Search.antt =====
-- The binary search in a compiled lexicon, `bl_bsearch` and `lookup_complex` in lexicon.cc, against the
-- reading of the file from its first line.
use speech_synthesis_system.Base.{
  ℕ, zero, suc, ◌+◌, ◌-◌, ◌/◌, ◌≤◌, ◌<◌, String, ◌≡◌, ◌⊎◌, inl, inr, refl, sym, ap, ◌∙◌, subst,
  Option, List, [], ◌∷◌, ◌++◌, ltb, arith, Bool-cases, All,
}
use speech_synthesis_system.Lexicon.Entries.{Sign, negative, positive, Features}
use speech_synthesis_system.Lexicon.Cache.{Index, bl_lookup_cache}
use speech_synthesis_system.Lexicon.File.{
  Line, Compiled, lines_after, bl_find_next_entry, head_of, Answer, probe, bl_bsearch,
  lookup_complex,
}
use speech_synthesis_system.Lexicon.Region.{widths, last_start, last_start-wide}
use speech_synthesis_system.Lexicon.Probe.{
  probe-zero_sign, probe-negative, probe-positive, bl_bsearch-first, bl_bsearch-middle, entry_start,
  line_before, file_end, last_line, Told, before, here, behind, at_end, Told-from, Told-until,
  All-IsFrom,
}
use speech_synthesis_system.Lexicon.Backing.{
  IsBefore, IsHere, IsBehind, parted, IsReading, bl_find_actual_entry-IsReading, reading-matched,
}

module _ (fcompare : String → String → Sign) (word : String) (features : Features) (blstart : ℕ)
    (end_word : String) (front : List Line) (t : Line) (group back : List Line) where
  abbrev pub compiled : Compiled
  compiled = parted fcompare word features blstart end_word front (t ∷ group) back

  abbrev pub Reads : Option Answer → Type 0
  Reads o = IsReading fcompare word features blstart end_word front (t ∷ group) back o

  -- What is read at the end of the file is behind the word, or no place that the search tries before it
  -- has passed the lines before the word leads there.
  abbrev pub IsEndBehind : Type 0
  IsEndBehind =
      (fcompare word end_word ≡ negative)
      ⊎ (line_before fcompare word (blstart + 1) front t group back
            + file_end fcompare word (blstart + 1) front t group back
          ≤ last_line fcompare word (blstart + 1) front t group back
            + last_line fcompare word (blstart + 1) front t group back)

  -- A pair of places between which the first entry for the word is.
  abbrev pub IsAround : ℕ → ℕ → Type 0
  IsAround start end =
      (blstart ≤ start)
      × (start < line_before fcompare word (blstart + 1) front t group back)
      × (entry_start fcompare word (blstart + 1) front t group back ≤ end)
      × (end ≤ file_end fcompare word (blstart + 1) front t group back)

  module _ (fr : All (IsBefore fcompare word) front) (h : IsHere fcompare word t)
      (g : All (IsHere fcompare word) group) (b : All (IsBehind fcompare word) back)
      (wide : All (λ m. 9 ≤ m.width) front) (eof : IsEndBehind) where
    tell :
        (mid : ℕ)
        → Told fcompare word (blstart + 1) front t group back mid (bl_find_next_entry compiled mid)
    unfolding bl_find_next_entry
    tell mid = elim (Bool-cases (ltb mid (blstart + 1 + widths front))) [
      | inl e ↦
          Told-until fcompare word (blstart + 1) front t group back front mid refl fr h
            (ground (arith, e))
      | inr e ↦
          Told-from fcompare word (blstart + 1) front t group back mid
            (All-IsFrom fcompare word (blstart + 1) front t group back h g b) (ground (arith, e))
    ]

    found_here :
        (search : Index → ℕ → ℕ → ℕ → Option Answer) (cache : Index) (start mid end depth : ℕ)
        (m : Line) (ms : List Line)
        → bl_find_next_entry compiled mid ≡ m ∷ ms
        → IsHere fcompare word m
        → Reads (probe fcompare compiled word features search cache start mid end depth)
    unfolding bl_find_next_entry
    found_here search cache start mid end depth m ms same is =
        let sign = ap (λ (ls : List Line). fcompare word (head_of compiled ls)) same ∙ is in
        subst Reads
          (sym
            (probe-zero_sign fcompare compiled word features search cache start mid end depth sign))
          (bl_find_actual_entry-IsReading fcompare word features blstart end_word front (t ∷ group)
            back _ mid m ms fr (h, g) b same is
            (reading-matched fcompare word features front t (group ++ back) fr h))

    sign_of :
        (read : List Line) (m : Line) (ms : List Line) (x : Sign)
        → read ≡ m ∷ ms
        → fcompare word m.entry.headword ≡ x
        → fcompare word (head_of compiled read) ≡ x
    sign_of read m ms x same is =
        ap (λ (ls : List Line). fcompare word (head_of compiled ls)) same ∙ is

    -- Places that are near each other are at the first line, which is for the word.
    near_first :
        (ls : List Line) (start end : ℕ)
        → All (λ m. 9 ≤ m.width) ls
        → blstart ≤ start
        → start < last_start (blstart + 1) ls
        → blstart + 1 + widths ls ≤ end
        → end - start < 10
        → (start ≡ blstart)
          × (lines_after (blstart + 1) (ls ++ (t ∷ (group ++ back))) blstart ≡ t ∷ (group ++ back))
    unfolding lines_after
    near_first [] start end w a b c near = (omega (arith, a, b), ground arith)
    near_first (l ∷ ls) start end w a b c near =
        absurd (omega (arith, a, b, c, near, last_start-wide (blstart + 1) l ls w))

    first_round :
        (f : ℕ) (cache : Index) (start end depth : ℕ)
        → IsAround start end
        → end - start < 10
        → Reads (bl_bsearch fcompare compiled word features (suc f) cache start end depth)
    unfolding bl_find_next_entry
    first_round f cache start end depth around near =
        let (is, same) = near_first front start end wide around.0 around.1 around.2 near in
        let close : end - blstart < 10 = omega (arith, near, is) in
        let below : blstart < end = omega (arith, around.2) in
        subst Reads
          (sym (
            ap (λ s. bl_bsearch fcompare compiled word features (suc f) cache s end depth) is
            ∙ bl_bsearch-first fcompare compiled word features f cache end depth below close))
          (found_here (bl_bsearch fcompare compiled word features f) cache blstart blstart blstart
            depth t (group ++ back) same h)

    -- The end of the file, where it is read before the search has passed the lines before the word.
    end_is_behind :
        (start end mid : ℕ) (read : List Line)
        → IsAround start end
        → read ≡ []
        → last_line fcompare word (blstart + 1) front t group back ≤ mid
        → mid + mid ≤ start + end
        → fcompare word (head_of compiled read) ≡ negative
    end_is_behind start end mid read around same last middle = elim eof [
      | inl e ↦ ap (λ (ls : List Line). fcompare word (head_of compiled ls)) same ∙ e
      | inr d ↦ absurd (omega (arith, around, last, middle, d))
    ]

    bl_bsearch-Reads :
        (f : ℕ) (cache : Index) (start end depth : ℕ)
        → IsAround start end
        → end - start < f
        → Reads (bl_bsearch fcompare compiled word features f cache start end depth)
    bl_bsearch-Reads zero cache start end depth around fuel = absurd (omega (arith, fuel))
    bl_bsearch-Reads (suc f) cache start end depth around fuel =
        elim (Bool-cases (ltb (end - start) 10)) [
          | inl e ↦ first_round f cache start end depth around (ground (arith, e))
          | inr e ↦
              let far : 10 ≤ end - start = ground (arith, e) in
              let mid : ℕ = start + (end - start) / 2 in
              let read : List Line = bl_find_next_entry compiled mid in
              let search = bl_bsearch fcompare compiled word features f in
              let round =
                bl_bsearch-middle fcompare compiled word features f cache end depth start far in
              let go_back =
                λ (sign : fcompare word (head_of compiled read) ≡ negative)
                    (past : blstart + 1 + widths front ≤ mid).
                  subst Reads
                    (sym (
                      round
                      ∙ probe-negative fcompare compiled word features search cache start mid end
                          depth sign))
                    (bl_bsearch-Reads f _ start mid (depth + 1)
                      (around.0, around.1, past, omega (arith, far, around.3))
                      (omega (arith, far, fuel))) in
              elim (tell mid) [
                | here m ms same is ↦
                    subst Reads (sym round)
                      (found_here search cache start mid end depth m ms same is)
                | before m ms same is less ↦
                    subst Reads
                      (sym (
                        round
                        ∙ probe-positive fcompare compiled word features search cache start mid end
                            depth (sign_of read m ms positive same is)))
                      (bl_bsearch-Reads f _ mid end (depth + 1)
                        (omega (arith, around.0), less, around.2, around.3)
                        (omega (arith, far, fuel)))
                | behind m ms same is past ↦ go_back (sign_of read m ms negative same is) past
                | at_end same last past ↦
                    go_back (end_is_behind start end mid read around same last (omega (arith, far)))
                      past
              ]
        ]

    -- In a compiled file whose lines before the word, for it and behind it stand in this order, where no
    -- line before the word is shorter than nine bytes, what is read at the end of the file is behind the
    -- word or is too far on to be read, and the index cache gives the word a pair of places around its
    -- first entry, the binary search comes to an end, and its entry and its matched entries are those that
    -- the reading of the whole file from its first line gives.
    pub lookup_complex-Reads :
        (cache : Index)
        → IsAround
            (bl_lookup_cache fcompare cache word 0).0.0
            (bl_lookup_cache fcompare cache word 0).0.1
        → Reads (lookup_complex fcompare compiled word features cache)
    unfolding lookup_complex
    lookup_complex-Reads cache around =
        let ((start, end), depth) = bl_lookup_cache fcompare cache word 0 in
        bl_bsearch-Reads (suc (suc (end - start))) cache start end depth around (omega arith)
