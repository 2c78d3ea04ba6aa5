-- ===== src/Lexicon/Backing.antt =====
-- The first loop of `bl_find_actual_entry` in lexicon.cc: going back from an entry for the word, in a file
-- whose lines before the word, for it, and behind it stand in this order.
use speech_synthesis_system.Base.{
  ℕ, zero, suc, ◌+◌, ◌-◌, ◌≤◌, ◌<◌, String, ◌≡◌, ◌≢◌, ◌⊎◌, inl, inr, refl, sym, ap, ◌∙◌, false,
  Option, none, some, List, [], ◌∷◌, ◌++◌, ltb, arith, Bool-cases, All,
}
use speech_synthesis_system.Lexicon.Entries.{
  Sign, negative, zero_sign, positive, Features, Entry, find_actual_entry, actual_loop,
  bl_match_entry, match_features, or_first,
}
use speech_synthesis_system.Lexicon.Cache.{Index}
use speech_synthesis_system.Lexicon.Region.{lines_after-All}
use speech_synthesis_system.Lexicon.File.{
  Line, Compiled, line_entries, lines_after, bl_find_next_entry, tail_of, Answer, back_up,
  answer_from, bl_find_actual_entry, end_entry,
}

pub Sign-cases : (x : Sign) → (x ≡ negative) ⊎ ((x ≡ zero_sign) ⊎ (x ≡ positive))
Sign-cases negative = inl refl
Sign-cases zero_sign = inr (inl refl)
Sign-cases positive = inr (inr refl)

cons_not_nil : (x : Entry) (l : List Entry) → x ∷ l ≢ []
cons_not_nil x l h = cc

module _ (fcompare : String → String → Sign) (word : String) where
  -- The word is behind the line, it is the line's, or it is before the line.
  abbrev pub IsBefore : Line → Type 0
  IsBefore l = fcompare word l.entry.headword ≡ positive

  abbrev pub IsHere : Line → Type 0
  IsHere l = fcompare word l.entry.headword ≡ zero_sign

  abbrev pub IsBehind : Line → Type 0
  IsBehind l = fcompare word l.entry.headword ≡ negative

  not_here : (m : Line) (ms ls : List Line) → ls ≡ m ∷ ms → All IsBehind ls → IsHere m → ⊥
  not_here m ms [] e b h = cc
  not_here m ms (l ∷ ls) e b h =
      let same : l ≡ m = cc in cc (b.0, h, ap (λ (x : Line). fcompare word x.entry.headword) same)

module _ (fcompare : String → String → Sign) (word : String) (features : Features) where
  -- The entry and the matched entries that the second loop gives when it reads these lines from the first.
  abbrev pub reading : List Line → Option Entry × List Entry
  reading ls = actual_loop fcompare word features none [] (line_entries ls)

  pub reading-IsBefore :
      (l : Line) (ls : List Line) → IsBefore fcompare word l → reading (l ∷ ls) ≡ reading ls
  unfolding actual_loop bl_match_entry
  reading-IsBefore l ls h = rw (h, actual_loop) refl

  pub reading-front :
      (front rest : List Line)
      → All (IsBefore fcompare word) front
      → reading (front ++ rest) ≡ reading rest
  reading-front [] rest f = refl
  reading-front (l ∷ front) rest f =
      reading-IsBefore l (front ++ rest) f.0 ∙ reading-front front rest f.1

  matched_kept :
      (f_entry : Option Entry) (x : Entry) (matched entries : List Entry)
      → (actual_loop fcompare word features f_entry (x ∷ matched) entries).1 ≢ []
  unfolding actual_loop bl_match_entry
  matched_kept f_entry x matched [] h = cc
  matched_kept f_entry x matched (e ∷ l) h = elim (Sign-cases (fcompare word e.headword)) [
    | inl n ↦ cons_not_nil x matched (rw (n, actual_loop) at h)
    | inr (inr p) ↦ matched_kept f_entry x matched l (rw (p, actual_loop) at h)
    | inr (inl z) ↦ elim (Bool-cases (match_features features e.pos)) [
      | inl fit ↦ cons_not_nil e (x ∷ matched) (rw (z, actual_loop, fit) at h)
      | inr fit ↦
          matched_kept (or_first f_entry e) e (x ∷ matched) l (rw (z, actual_loop, fit) at h)
    ]
  ]

  first_matched :
      (t : Line) (rest : List Line) → IsHere fcompare word t → (reading (t ∷ rest)).1 ≢ []
  unfolding actual_loop bl_match_entry
  first_matched t rest z h = elim (Bool-cases (match_features features t.entry.pos)) [
    | inl fit ↦ cons_not_nil t.entry [] (rw (z, actual_loop, fit) at h)
    | inr fit ↦
        matched_kept (some t.entry) t.entry [] (line_entries rest) (rw (z, actual_loop, fit) at h)
  ]

  -- A file with an entry for the word has a matched one.
  pub reading-matched :
      (front : List Line) (t : Line) (rest : List Line)
      → All (IsBefore fcompare word) front
      → IsHere fcompare word t
      → (reading (front ++ t ∷ rest)).1 ≢ []
  reading-matched front t rest f z h =
      first_matched t rest z
        (ap (λ (r : Option Entry × List Entry). r.1) (sym (reading-front front (t ∷ rest) f)) ∙ h)

  find_actual_entry-reading :
      (eof : Entry) (ls : List Line)
      → (reading ls).1 ≢ []
      → find_actual_entry fcompare word features eof (line_entries ls) ≡ reading ls
  unfolding find_actual_entry actual_loop
  find_actual_entry-reading eof [] h = absurd (h refl)
  find_actual_entry-reading eof (l ∷ ls) h = refl

  -- What stands at a place before one that leads to the word: the word, or a line before it, behind which
  -- the reading gives what it gives from the first line.
  abbrev Earlier : List Line → List Line → Type 0
  Earlier all read =
      (m : Line) × (ms : List Line) × (read ≡ m ∷ ms)
      × (IsHere fcompare word m ⊎ (IsBefore fcompare word m × (reading ms ≡ reading all)))

  ahead_in_group :
      (at : ℕ) (all group back : List Line) (p pos : ℕ) (m : Line) (ms : List Line)
      → All (IsHere fcompare word) group
      → All (IsBehind fcompare word) back
      → p ≤ pos
      → lines_after at (group ++ back) pos ≡ m ∷ ms
      → IsHere fcompare word m
      → Earlier all (lines_after at (group ++ back) p)
  unfolding lines_after
  ahead_in_group at all [] back p pos m ms g b le read here = absurd (
      not_here fcompare word m ms _ read (lines_after-All (IsBehind fcompare word) at back pos b)
        here)
  ahead_in_group at all (l ∷ group) back p pos m ms g b le read here =
      elim (Bool-cases (ltb p at)) [
        | inl e ↦ rw e (l, group ++ back, refl, inl g.0)
        | inr e ↦
            let late : ltb pos at ≡ false = ground (arith, e, le) in
            rw e (
              ahead_in_group (at + l.width) all group back p pos m ms g.1 b le (rw late at read)
                here)
      ]

  ahead :
      (at : ℕ) (front group back : List Line) (p pos : ℕ) (m : Line) (ms : List Line)
      → All (IsBefore fcompare word) front
      → All (IsHere fcompare word) group
      → All (IsBehind fcompare word) back
      → p ≤ pos
      → lines_after at (front ++ (group ++ back)) pos ≡ m ∷ ms
      → IsHere fcompare word m
      → Earlier (front ++ (group ++ back)) (lines_after at (front ++ (group ++ back)) p)
  unfolding lines_after
  ahead at [] group back p pos m ms f g b le read here =
      ahead_in_group at (group ++ back) group back p pos m ms g b le read here
  ahead at (l ∷ front) group back p pos m ms f g b le read here =
      let passed = reading-IsBefore l (front ++ (group ++ back)) f.0 in
      elim (Bool-cases (ltb p at)) [
        | inl e ↦ rw e (l, front ++ (group ++ back), refl, inr (f.0, sym passed))
        | inr e ↦
            let late : ltb pos at ≡ false = ground (arith, e, le) in
            let (k, ks, same, what) =
              ahead (at + l.width) front group back p pos m ms f.1 g b le (rw late at read) here in
            rw e (k, ks, same, elim what [ inl h ↦ inl h | inr (h, r) ↦ inr (h, r ∙ sym passed) ])
      ]

  module _ (blstart : ℕ) (end_word : String) (front group back : List Line) where
    -- A file with its lines before the word, for it, and behind it.
    abbrev pub parted : Compiled
    parted = record { blstart = blstart; lines = front ++ (group ++ back); end_word = end_word }

    abbrev BacksUp : Option (List Line) → Type 0
    BacksUp o = (ls : List Line) × (o ≡ some ls) × (reading ls ≡ reading parted.lines)

    back_up-BacksUp :
        (f pos : ℕ) (m : Line) (ms : List Line)
        → All (IsBefore fcompare word) front
        → All (IsHere fcompare word) group
        → All (IsBehind fcompare word) back
        → pos < f
        → lines_after (blstart + 1) (front ++ (group ++ back)) pos ≡ m ∷ ms
        → IsHere fcompare word m
        → BacksUp (back_up fcompare parted word features f pos)
    unfolding back_up bl_find_next_entry
    back_up-BacksUp zero pos m ms fr g b h read here = absurd (omega arith)
    back_up-BacksUp (suc f) pos m ms fr g b h read here =
        elim (Bool-cases (ltb pos (blstart + 40))) [
          | inl e ↦ rw e (parted.lines, refl, refl)
          | inr e ↦
              let far : 40 ≤ pos = ground (arith, e) in
              let (k, ks, same, what) =
                ahead (blstart + 1) front group back (pos - 40) pos m ms fr g b (omega arith) read
                  here in
              elim what [
                | inl k_here ↦
                    rw (e, same, k_here)
                      (back_up-BacksUp f (pos - 40) k ks fr g b (omega (arith, h, far)) same k_here)
                | inr (k_before, r) ↦
                    rw (e, same, k_before) (ks, ap (λ (x : List Line). some (tail_of x)) same, r)
              ]
        ]

    -- An answer of what the reading from the first line gives.
    abbrev pub IsReading : Option Answer → Type 0
    IsReading o =
        (cache : Index) × (o
          ≡ some (record {
            found = (reading parted.lines).0;
            matched = (reading parted.lines).1;
            index_cache = cache;
          }))

    answer_from-IsReading :
        (cache : Index) (ls : List Line)
        → (reading parted.lines).1 ≢ []
        → reading ls ≡ reading parted.lines
        → IsReading (answer_from fcompare parted word features cache (some ls))
    unfolding answer_from
    answer_from-IsReading cache ls some_match e = (
      cache,
      ap
          (λ (r : Option Entry × List Entry).
            some (record { found = r.0; matched = r.1; index_cache = cache }))
          (find_actual_entry-reading (end_entry parted) ls (λ nothing.
              some_match (ap (λ (r : Option Entry × List Entry). r.1) (sym e) ∙ nothing))
            ∙ e),
    )

    -- From a place that leads to an entry for the word, `bl_find_actual_entry` gives what the reading from
    -- the first line of the file gives.
    pub bl_find_actual_entry-IsReading :
        (cache : Index) (pos : ℕ) (m : Line) (ms : List Line)
        → All (IsBefore fcompare word) front
        → All (IsHere fcompare word) group
        → All (IsBehind fcompare word) back
        → lines_after (blstart + 1) (front ++ (group ++ back)) pos ≡ m ∷ ms
        → IsHere fcompare word m
        → (reading parted.lines).1 ≢ []
        → IsReading (bl_find_actual_entry fcompare parted word features cache pos)
    unfolding bl_find_actual_entry
    bl_find_actual_entry-IsReading cache pos m ms fr g b read here some_match =
        let (ls, e, same) = back_up-BacksUp (suc pos) pos m ms fr g b (omega arith) read here in
        rw e (answer_from-IsReading cache ls some_match same)
