-- ===== src/Lexicon/Listed.antt =====
-- `lookup_all` of lexicon.cc gives all the entries for a word.
use speech_synthesis_system.Base.{
  ℕ, String, ◌≡◌, refl, ap, ◌∙◌, false, Option, none, some, ok, List, [], ◌∷◌, ◌++◌, reverse, ◌≤◌,
  append_assoc, append-nil, reverse-append, reverse-cons, reverse-reverse, str_eq, if◌then◌else◌,
  inl, inr, All,
}
use speech_synthesis_system.Lexicon.Entries.{
  Sign, flonum, Features, atom, Entry, or_first, match_features, bl_match_entry, actual_loop,
  addenda_entries,
}
use speech_synthesis_system.Lexicon.Cache.{bl_lookup_cache}
use speech_synthesis_system.Lexicon.File.{Line, Compiled, Answer, line_entries, lookup_complex}
use speech_synthesis_system.Lexicon.Registry.{Lexicon}
use speech_synthesis_system.Lexicon.Found.{is_zero}
use speech_synthesis_system.Lexicon.Backing.{
  Sign-cases, IsBefore, IsHere, IsBehind, reading, reading-front,
}
use speech_synthesis_system.Lexicon.Search.{compiled, IsEndBehind, IsAround, lookup_complex-Reads}
use speech_synthesis_system.Lexicon.Lookup.{Memory, Calls, binlex_init, lookup_file, lookup_all}

module _ (fcompare : String → String → Sign) (word : String) where
  -- The entries for the word, in their order.
  abbrev pub entries_for : List Entry → List Entry
  entries_for [] = []
  entries_for (e ∷ l) =
      if is_zero (fcompare word e.headword) then e ∷ entries_for l else entries_for l

  addenda_entries_lem :
      (l entries : List Entry)
      → addenda_entries fcompare word l entries ≡ reverse (entries_for l) ++ entries
  unfolding addenda_entries bl_match_entry
  addenda_entries_lem [] entries = refl
  addenda_entries_lem (e ∷ l) entries = elim (Sign-cases (fcompare word e.headword)) [
    | inl h ↦ rw (h, addenda_entries) (addenda_entries_lem l entries)
    | inr (inr h) ↦ rw (h, addenda_entries) (addenda_entries_lem l entries)
    | inr (inl h) ↦
        rw (h, addenda_entries)
          (simp (addenda_entries_lem l (e ∷ entries), reverse-cons, append_assoc) refl)
  ]

  entries_for-IsBehind :
      (back : List Line) → All (IsBehind fcompare word) back → entries_for (line_entries back) ≡ []
  entries_for-IsBehind [] b = refl
  entries_for-IsBehind (l ∷ back) b = rw (b.0) (entries_for-IsBehind back b.1)

  entries_for-IsHere :
      (group back : List Line)
      → All (IsHere fcompare word) group
      → All (IsBehind fcompare word) back
      → entries_for (line_entries (group ++ back)) ≡ line_entries group
  entries_for-IsHere [] back g b = entries_for-IsBehind back b
  entries_for-IsHere (l ∷ group) back g b =
      rw (g.0) (ap (λ es. l.entry ∷ es) (entries_for-IsHere group back g.1 b))

  entries_for-IsBefore :
      (front rest : List Line)
      → All (IsBefore fcompare word) front
      → entries_for (line_entries (front ++ rest)) ≡ entries_for (line_entries rest)
  entries_for-IsBefore [] rest f = refl
  entries_for-IsBefore (l ∷ front) rest f = rw (f.0) (entries_for-IsBefore front rest f.1)

  module _ (features : Features) where
    -- The line's entry has other features than those asked for.
    abbrev pub IsUnlike : Line → Type 0
    IsUnlike l = match_features features l.entry.pos ≡ false

    matched-IsBehind :
        (f_entry : Option Entry) (matched : List Entry) (back : List Line)
        → All (IsBehind fcompare word) back
        → (actual_loop fcompare word features f_entry matched (line_entries back)).1 ≡ matched
    unfolding actual_loop bl_match_entry
    matched-IsBehind f_entry matched [] b = refl
    matched-IsBehind f_entry matched (l ∷ back) b = rw (b.0, actual_loop) refl

    matched-IsHere :
        (f_entry : Option Entry) (matched : List Entry) (group back : List Line)
        → All (IsHere fcompare word) group
        → All IsUnlike group
        → All (IsBehind fcompare word) back
        → (actual_loop fcompare word features f_entry matched (line_entries (group ++ back))).1
          ≡ reverse (line_entries group) ++ matched
    unfolding actual_loop bl_match_entry
    matched-IsHere f_entry matched [] back g u b = matched-IsBehind f_entry matched back b
    matched-IsHere f_entry matched (l ∷ group) back g u b =
        rw (g.0, actual_loop, u.0)
          (matched-IsHere (or_first f_entry l.entry) (l.entry ∷ matched) group back g.1 u.1 b
            ∙ simp (reverse-cons, append_assoc) refl)

    matched_lem :
        (front group back : List Line)
        → All (IsBefore fcompare word) front
        → All (IsHere fcompare word) group
        → All IsUnlike group
        → All (IsBehind fcompare word) back
        → (reading fcompare word features (front ++ (group ++ back))).1
          ≡ reverse (entries_for (line_entries (front ++ (group ++ back))))
    matched_lem front group back f g u b =
        ap (λ (r : Option Entry × List Entry). r.1)
          (reading-front fcompare word features front (group ++ back) f)
        ∙ matched-IsHere none [] group back g u b
        ∙ simp
            (
              entries_for-IsBefore front (group ++ back) f,
              entries_for-IsHere group back g b,
              append-nil,
            )
            refl

-- The features that no entry is meant to have.
abbrev pub no_features : Features
no_features = atom (flonum "-1")

module _ {Lisp : Type 0} (calls : Calls Lisp) (l : Lexicon Lisp) (word : String) where
  lookup_file-some :
      (features : Features) (file : Compiled) (m opened : Memory) (a : Answer)
      → str_eq l.bl_filename "" ≡ false
      → binlex_init l.bl_filename (calls.contents l.bl_filename) m ≡ ok (file, opened)
      → lookup_complex calls.fcompare file word features opened.index_cache ≡ some a
      → (m' : Memory) × (lookup_file calls l word features m ≡ ok (a.found, m'))
        × (m'.matched_lexical_entries ≡ a.matched)
  unfolding lookup_file
  lookup_file-some features file m opened a named found answer = (
    record opened { index_cache = a.index_cache; matched_lexical_entries = a.matched },
    rw (named, found, answer) refl,
    refl,
  )

  lookup_all-matched :
      (m m' : Memory) (found : Option Entry) (matched : List Entry)
      → lookup_file calls l word no_features m ≡ ok (found, m')
      → m'.matched_lexical_entries ≡ reverse matched
      → lookup_all calls l word m ≡ ok (entries_for calls.fcompare word l.addenda ++ matched, m')
  unfolding lookup_all
  lookup_all-matched m m' found matched e same =
      rw (e, same)
        (simp
          (
            addenda_entries_lem calls.fcompare word l.addenda [],
            append-nil,
            reverse-append,
            reverse-reverse,
          )
          refl)

  -- In a lexicon with a compiled file that is open or can be opened, whose lines before the word, for it
  -- and behind it stand in this order, where no line before the word is shorter than nine bytes, what is
  -- read at the end of the file is behind the word or is too far on to be read, the index cache gives the
  -- word a pair of places around its first entry, there is an entry for the word, and none of its entries
  -- has -1 as its features, `lookup_all` gives the entries of the addenda for the word and then those of the
  -- file, each in their order.
  pub lookup_all-entries_for :
      (m opened : Memory) (blstart : ℕ) (end_word : String) (front : List Line) (t : Line)
      (group back : List Line)
      → str_eq l.bl_filename "" ≡ false
      → binlex_init l.bl_filename (calls.contents l.bl_filename) m
        ≡ ok (compiled calls.fcompare word no_features blstart end_word front t group back, opened)
      → All (IsBefore calls.fcompare word) front
      → All (IsHere calls.fcompare word) (t ∷ group)
      → All (IsBehind calls.fcompare word) back
      → All (IsUnlike calls.fcompare word no_features) (t ∷ group)
      → All (λ k. 9 ≤ k.width) front
      → IsEndBehind calls.fcompare word no_features blstart end_word front t group back
      → IsAround calls.fcompare word no_features blstart end_word front t group back
          (bl_lookup_cache calls.fcompare opened.index_cache word 0).0.0
          (bl_lookup_cache calls.fcompare opened.index_cache word 0).0.1
      → (m' : Memory) × (lookup_all calls l word m
          ≡ ok (
            entries_for calls.fcompare word l.addenda
                ++ entries_for calls.fcompare word (line_entries (front ++ (t ∷ (group ++ back)))),
            m',
          ))
  lookup_all-entries_for m opened blstart end_word front t group back named made f g b u wide eof
        around =
      let (cache, answer) =
        lookup_complex-Reads calls.fcompare word no_features blstart end_word front t group back f
          g.0 g.1 b wide eof opened.index_cache around in
      let (m', e, same) = lookup_file-some no_features _ m opened _ named made answer in
      (
        m',
        lookup_all-matched m m' _ _ e
            (same ∙ matched_lem calls.fcompare word no_features front (t ∷ group) back f g u b),
      )
