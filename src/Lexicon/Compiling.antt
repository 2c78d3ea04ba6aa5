-- ===== src/Lexicon/Compiling.antt =====
-- A lexicon that is written by complex.cc is one in which the search of lexicon.cc finds its words.
use speech_synthesis_system.Base.{
  ◌+◌, ◌≤◌, String, ◌≡◌, ◌≢◌, inl, inr, refl, sym, ap, ◌∙◌, subst, some, List, [], ◌∷◌, ◌++◌, arith,
  All, All-append, All-append_inv, All-mono,
}
use mathlib.Core.List.{Memᴰ}
use speech_synthesis_system.Lexicon.Entries.{Sign, negative, zero_sign, positive, Features, Entry}
use speech_synthesis_system.Lexicon.Cache.{Index, bottom, bl_lookup_cache}
use speech_synthesis_system.Lexicon.File.{Line, Compiled, lookup_complex}
use speech_synthesis_system.Lexicon.Region.{widths, last_start-ge}
use speech_synthesis_system.Lexicon.Backing.{
  Sign-cases, IsBefore, IsHere, IsBehind, reading, reading-matched,
}
use speech_synthesis_system.Lexicon.Search.{lookup_complex-Reads}
use speech_synthesis_system.Lexicon.Writing.{Writer, or_then, entry_compare, written, write_sorted}

-- Each entry is not behind the next one.
abbrev pub IsSorted : (Entry → Entry → Sign) → List Entry → Type 0
IsSorted compare [] = Unit
IsSorted compare (a ∷ []) = Unit
IsSorted compare (a ∷ b ∷ l) = (compare a b ≢ positive) × IsSorted compare (b ∷ l)

or_then-negative : (x y : Sign) → or_then x y ≢ positive → x ≢ positive
or_then-negative negative y h e = cc
or_then-negative zero_sign y h e = cc
or_then-negative positive y h e = h refl

-- What is documented of the calls: a sorting gives its entries in order, all of them, and `fcompare` is
-- an order of texts.
pub record WriterLaws (w : Writer) : Type 0 where
  pub qsort-IsSorted : (l : List Entry) → IsSorted (entry_compare w) (w.qsort (entry_compare w) l)
  pub qsort-mem : (e : Entry) (l : List Entry) → Memᴰ e l → Memᴰ e (w.qsort (entry_compare w) l)
  pub negative_then :
      (word a b : String)
      → w.fcompare word a ≡ negative
      → w.fcompare a b ≢ positive
      → w.fcompare word b ≡ negative
  pub zero_then :
      (word a b : String)
      → w.fcompare word a ≡ zero_sign
      → w.fcompare a b ≢ positive
      → w.fcompare word b ≢ positive

widths-append : (front rest : List Line) → widths (front ++ rest) ≡ widths front + widths rest
widths-append [] rest = omega arith
widths-append (l ∷ front) rest = omega (arith, widths-append front rest)

pub IsSorted-rest :
    (compare : Entry → Entry → Sign) (a : Entry) (l : List Entry)
    → IsSorted compare (a ∷ l)
    → IsSorted compare l
IsSorted-rest compare a [] s = tt
IsSorted-rest compare a (b ∷ l) s = s.1

module _ (w : Writer) (laws : WriterLaws w) (word : String) where
  -- The lines in three parts: before the word, for it, and behind it.
  abbrev Parts : List Line → Type 0
  Parts ls =
      (front : List Line) × (group : List Line) × (back : List Line) × (ls
        ≡ front ++ (group ++ back))
      × All (IsBefore w.fcompare word) front
      × All (IsHere w.fcompare word) group
      × All (IsBehind w.fcompare word) back

  first_compare :
      (a b : Entry) → entry_compare w a b ≢ positive → w.fcompare a.headword b.headword ≢ positive
  unfolding entry_compare
  first_compare a b h = or_then-negative (w.fcompare a.headword b.headword) _ h

  All-IsBehind :
      (a : Entry) (l : List Entry)
      → w.fcompare word a.headword ≡ negative
      → IsSorted (entry_compare w) (a ∷ l)
      → All (IsBehind w.fcompare word) (written w (a ∷ l))
  unfolding written
  All-IsBehind a [] h s = (h, tt)
  All-IsBehind a (b ∷ l) h s = (
    h,
    All-IsBehind b l (laws.negative_then word a.headword b.headword h (first_compare a b s.0)) s.1,
  )

  -- From an entry for the word on.
  IsHere-first :
      (a : Entry) (l : List Entry)
      → w.fcompare word a.headword ≡ zero_sign
      → IsSorted (entry_compare w) (a ∷ l)
      → (group : List Line) × (back : List Line) × (written w (a ∷ l) ≡ group ++ back)
        × All (IsHere w.fcompare word) group
        × All (IsBehind w.fcompare word) back
  unfolding written
  IsHere-first a [] h s = (written w (a ∷ []), [], refl, (h, tt), tt)
  IsHere-first a (b ∷ l) h s =
      let line : Line = record { entry = a; width = w.size (w.entry_text a) + 1 } in
      elim (Sign-cases (w.fcompare word b.headword)) [
        | inl n ↦ (line ∷ [], written w (b ∷ l), refl, (h, tt), All-IsBehind b l n s.1)
        | inr (inl z) ↦
            let (group, back, same, g, k) = IsHere-first b l z s.1 in
            (line ∷ group, back, ap (λ ls. line ∷ ls) same, (h, g), k)
        | inr (inr p) ↦
            absurd (laws.zero_then word a.headword b.headword h (first_compare a b s.0) p)
      ]

  parts : (l : List Entry) → IsSorted (entry_compare w) l → Parts (written w l)
  unfolding written
  parts [] s = ([], [], [], refl, tt, tt, tt)
  parts (a ∷ l) s =
      let line : Line = record { entry = a; width = w.size (w.entry_text a) + 1 } in
      elim (Sign-cases (w.fcompare word a.headword)) [
        | inl n ↦ ([], [], written w (a ∷ l), refl, tt, tt, All-IsBehind a l n s)
        | inr (inl z) ↦
            let (group, back, same, g, k) = IsHere-first a l z s in
            ([], group, back, same, tt, g, k)
        | inr (inr p) ↦
            let (front, group, back, same, f, g, k) =
              parts l (IsSorted-rest (entry_compare w) a l s) in
            (line ∷ front, group, back, ap (λ ls. line ∷ ls) same, (p, f), g, k)
      ]

  abbrev IsElsewhere : Line → Type 0
  IsElsewhere l = w.fcompare word l.entry.headword ≢ zero_sign

  not_elsewhere :
      (e : Entry) (l : List Entry)
      → w.fcompare word e.headword ≡ zero_sign
      → Memᴰ e l
      → All IsElsewhere (written w l)
      → ⊥
  unfolding written
  not_elsewhere e [] h m a = elim m [ ]
  not_elsewhere e (x ∷ l) h (Memᴰ.head same) a =
      a.0 (ap (λ (y : Entry). w.fcompare word y.headword) (sym same) ∙ h)
  not_elsewhere e (x ∷ l) h (Memᴰ.tail m) a = not_elsewhere e l h m a.1

  elsewhere :
      (front back : List Line)
      → All (IsBefore w.fcompare word) front
      → All (IsBehind w.fcompare word) back
      → All IsElsewhere (front ++ back)
  elsewhere front back f b =
      All-append IsElsewhere front back
        (All-mono (IsBefore w.fcompare word) IsElsewhere front (λ l h z. cc) f)
        (All-mono (IsBehind w.fcompare word) IsElsewhere back (λ l h z. cc) b)

  written-wide :
      (l : List Entry)
      → ((e : Entry) → 8 ≤ w.size (w.entry_text e))
      → All (λ k. 9 ≤ k.width) (written w l)
  unfolding written
  written-wide [] h = tt
  written-wide (e ∷ l) h = (omega (arith, h e), written-wide l h)

  module _ (features : Features) where
    -- The search in a file that is just opened gives what reading its entries in turn gives, and some
    -- entries match.
    abbrev pub IsFound : Compiled → Type 0
    IsFound file =
        (cache : Index) × (lookup_complex w.fcompare file word features
            (bottom file.blstart (file.blstart + 1 + widths file.lines))
          ≡ some (record {
            found = (reading w.fcompare word features file.lines).0;
            matched = (reading w.fcompare word features file.lines).1;
            index_cache = cache;
          }))
        × ((reading w.fcompare word features file.lines).1 ≢ [])

    parts-IsFound :
        (front : List Line) (t : Line) (group back : List Line)
        → All (IsBefore w.fcompare word) front
        → All (IsHere w.fcompare word) (t ∷ group)
        → All (IsBehind w.fcompare word) back
        → All (λ k. 9 ≤ k.width) front
        → w.fcompare word w.end_word ≡ negative
        → IsFound
            (record { blstart = 4; lines = front ++ (t ∷ (group ++ back)); end_word = w.end_word })
    unfolding bl_lookup_cache
    parts-IsFound front t group back f g b wide eof =
        let (cache, found) =
          lookup_complex-Reads w.fcompare word features 4 w.end_word front t group back f g.0 g.1 b
            wide (inl eof) (bottom 4 (4 + 1 + widths (front ++ (t ∷ (group ++ back)))))
            (
              omega arith,
              omega (arith, last_start-ge 5 front),
              omega (arith, widths-append front (t ∷ (group ++ back))),
              omega (arith, widths-append front (t ∷ (group ++ back))),
            ) in
        (cache, found, reading-matched w.fcompare word features front t (group ++ back) f g.0)

    parts-here :
        (e : Entry) (l : List Entry) (front group back : List Line)
        → Memᴰ e l
        → w.fcompare word e.headword ≡ zero_sign
        → written w l ≡ front ++ (group ++ back)
        → All (IsBefore w.fcompare word) front
        → All (IsHere w.fcompare word) group
        → All (IsBehind w.fcompare word) back
        → All (λ k. 9 ≤ k.width) (written w l)
        → w.fcompare word w.end_word ≡ negative
        → IsFound (record { blstart = 4; lines = written w l; end_word = w.end_word })
    parts-here e l front [] back m h same f g b wide eof =
        absurd
          (not_elsewhere e l h m (subst (All IsElsewhere) (sym same) (elsewhere front back f b)))
    parts-here e l front (t ∷ group) back m h same f g b wide eof =
        subst
          (λ (ls : List Line). IsFound (record { blstart = 4; lines = ls; end_word = w.end_word }))
          (sym same)
          (parts-IsFound front t group back f g b
            (All-append_inv (λ (k : Line). 9 ≤ k.width) front (t ∷ (group ++ back))
              (subst (All (λ (k : Line). 9 ≤ k.width)) same wide)).0
            eof)

    -- In a lexicon that `lexicon_compile` writes, where the calls keep what is documented of them, every
    -- entry is printed with eight bytes or more, and what is read at the end of the file is behind the
    -- word, the binary search for the word of an entry comes to an end, gives the entry and the matched
    -- entries that the reading of the file from its first line gives, and matches at least one entry.
    pub write_sorted-lookup_complex :
        (e : Entry) (entries : List Entry)
        → Memᴰ e entries
        → w.fcompare word e.headword ≡ zero_sign
        → ((x : Entry) → 8 ≤ w.size (w.entry_text x))
        → w.fcompare word w.end_word ≡ negative
        → IsFound (write_sorted w entries)
    unfolding write_sorted
    write_sorted-lookup_complex e entries m h wide eof =
        let sorted = w.qsort (entry_compare w) entries in
        let (front, group, back, same, f, g, b) = parts sorted (laws.qsort-IsSorted entries) in
        parts-here e sorted front group back (laws.qsort-mem e entries m) h same f g b
          (written-wide sorted wide) eof
