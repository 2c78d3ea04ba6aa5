-- ===== src/Lexicon/Probe.antt =====
-- One round of `bl_bsearch` in lexicon.cc, and what its reading of a line tells of the word's place.
use speech_synthesis_system.Base.{
  ℕ, suc, ◌+◌, ◌-◌, ◌/◌, ◌≤◌, ◌<◌, String, ◌≡◌, ◌⊎◌, inl, inr, refl, Option, List, [], ◌∷◌, ◌++◌,
  ltb, arith, Bool-cases, All, All-append, All-mono,
}
use speech_synthesis_system.Lexicon.Entries.{Sign, negative, zero_sign, positive, Features}
use speech_synthesis_system.Lexicon.Cache.{Index}
use speech_synthesis_system.Lexicon.File.{
  Line, Compiled, lines_after, bl_find_next_entry, head_of, Answer, bl_find_actual_entry,
  divide_cache, probe, bl_bsearch,
}
use speech_synthesis_system.Lexicon.Region.{
  widths, last_start, lines_after-front, lines_after-rest, lines_after-behind, lines_after-All,
  last_start-le,
}
use speech_synthesis_system.Lexicon.Backing.{IsBefore, IsHere, IsBehind}

-- The probe by the sign that it sees.
module _ (fcompare : String → String → Sign) (file : Compiled) (word : String) (features : Features)
    (search : Index → ℕ → ℕ → ℕ → Option Answer) (cache : Index) (start mid end depth : ℕ) where
  abbrev pub divided_there : Index
  divided_there =
      divide_cache fcompare file word features cache (head_of file (bl_find_next_entry file mid))
        start mid end depth

  pub probe-zero_sign :
      fcompare word (head_of file (bl_find_next_entry file mid)) ≡ zero_sign
      → probe fcompare file word features search cache start mid end depth
        ≡ bl_find_actual_entry fcompare file word features divided_there mid
  unfolding probe
  probe-zero_sign h = rw (h, probe) refl

  pub probe-negative :
      fcompare word (head_of file (bl_find_next_entry file mid)) ≡ negative
      → probe fcompare file word features search cache start mid end depth
        ≡ search divided_there start mid (depth + 1)
  unfolding probe
  probe-negative h = rw (h, probe) refl

  pub probe-positive :
      fcompare word (head_of file (bl_find_next_entry file mid)) ≡ positive
      → probe fcompare file word features search cache start mid end depth
        ≡ search divided_there mid end (depth + 1)
  unfolding probe
  probe-positive h = rw (h, probe) refl

-- One round, where the places are near each other at the first line, and where they are not.
module _ (fcompare : String → String → Sign) (file : Compiled) (word : String) (features : Features)
    (f : ℕ) (cache : Index) (end depth : ℕ) where
  pub bl_bsearch-first :
      file.blstart < end
      → end - file.blstart < 10
      → bl_bsearch fcompare file word features (suc f) cache file.blstart end depth
        ≡ probe fcompare file word features
            (bl_bsearch fcompare file word features f)
            cache
            file.blstart
            file.blstart
            file.blstart
            depth
  unfolding bl_bsearch
  bl_bsearch-first h near = ground (arith, h, near)

  pub bl_bsearch-middle :
      (start : ℕ)
      → 10 ≤ end - start
      → bl_bsearch fcompare file word features (suc f) cache start end depth
        ≡ probe fcompare file word features
            (bl_bsearch fcompare file word features f)
            cache
            start
            (start + (end - start) / 2)
            end
            depth
  unfolding bl_bsearch
  bl_bsearch-middle start far = ground (arith, far)

module _ (fcompare : String → String → Sign) (word : String) (at : ℕ) (front : List Line) (t : Line)
    (group back : List Line) where
  -- Where the first entry for the word begins, the place before which a line before the word is read, and
  -- the end of the file.
  abbrev pub entry_start : ℕ
  entry_start = at + widths front

  abbrev pub line_before : ℕ
  line_before = last_start at front

  abbrev pub file_end : ℕ
  file_end = entry_start + widths (t ∷ (group ++ back))

  abbrev pub last_line : ℕ
  last_line = last_start entry_start (t ∷ (group ++ back))

  -- What one reading tells.
  pub data Told (mid : ℕ) (read : List Line) : Type 0 where
    before :
        (m : Line) (ms : List Line)
        → read ≡ m ∷ ms
        → IsBefore fcompare word m
        → mid < line_before
        → Told mid read
    here : (m : Line) (ms : List Line) → read ≡ m ∷ ms → IsHere fcompare word m → Told mid read
    behind :
        (m : Line) (ms : List Line)
        → read ≡ m ∷ ms
        → IsBehind fcompare word m
        → entry_start ≤ mid
        → Told mid read
    at_end : read ≡ [] → last_line ≤ mid → entry_start ≤ mid → Told mid read

  abbrev pub IsFrom : Line → Type 0
  IsFrom m = IsHere fcompare word m ⊎ IsBehind fcompare word m

  Told-behind :
      (mid : ℕ) (read : List Line)
      → All IsFrom read
      → entry_start ≤ mid
      → (read ≡ [] → last_line ≤ mid)
      → Told mid read
  Told-behind mid [] a h e = at_end refl (e refl) h
  Told-behind mid (m ∷ ms) a h e = elim (a.0) [
    | inl i ↦ here m ms refl i
    | inr i ↦ behind m ms refl i h
  ]

  pub All-IsFrom :
      IsHere fcompare word t
      → All (IsHere fcompare word) group
      → All (IsBehind fcompare word) back
      → All IsFrom (t ∷ (group ++ back))
  All-IsFrom h g b = (
    inl h,
    All-append IsFrom group back (All-mono (IsHere fcompare word) IsFrom group (λ m i. inl i) g)
        (All-mono (IsBehind fcompare word) IsFrom back (λ m i. inr i) b),
  )

  pub Told-from :
      (mid : ℕ)
      → All IsFrom (t ∷ (group ++ back))
      → entry_start ≤ mid
      → Told mid (lines_after at (front ++ (t ∷ (group ++ back))) mid)
  Told-from mid a h =
      let same = lines_after-behind at front (t ∷ (group ++ back)) mid h in
      rw same (
        Told-behind mid (lines_after entry_start (t ∷ (group ++ back)) mid)
          (lines_after-All IsFrom entry_start (t ∷ (group ++ back)) mid a) h
          (last_start-le entry_start t (group ++ back) mid))

  pub Told-until :
      (ls : List Line) (mid : ℕ)
      → front ≡ ls
      → All (IsBefore fcompare word) ls
      → IsHere fcompare word t
      → mid < at + widths ls
      → Told mid (lines_after at (ls ++ (t ∷ (group ++ back))) mid)
  Told-until [] mid e f h less =
      here t (group ++ back) (lines_after-rest at [] t (group ++ back) mid tt less) h
  Told-until (l ∷ ls) mid e f h less = elim (Bool-cases (ltb mid (last_start at (l ∷ ls)))) [
    | inl near ↦
        let (m, ms, same, is) =
          lines_after-front at l ls (t ∷ (group ++ back)) mid f (ground (arith, near)) in
        before m ms same is (rw e (ground (arith, near)))
    | inr far ↦
        here t (group ++ back)
          (lines_after-rest at (l ∷ ls) t (group ++ back) mid (ground (arith, far)) less) h
  ]
