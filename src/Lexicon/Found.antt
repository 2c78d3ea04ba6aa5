-- ===== src/Lexicon/Found.antt =====
-- What the searches of lexicon.cc find: in the addenda, and at the end of the compiled entries.
use speech_synthesis_system.Base.{
  String, ◌≡◌, ◌≢◌, refl, ap, sym, append-nil, ◌∙◌, Bool, true, false, ◌&&◌, Option, none, some,
  List, [], ◌∷◌, ◌++◌, if◌then◌else◌, Bool-cases, inl, inr, ◌⊎◌, All,
}
use speech_synthesis_system.Lexicon.Entries.{
  Sign, negative, zero_sign, positive, Features, Entry, or_first, match_features, bl_match_entry,
  addenda_loop, lookup_addenda, actual_loop, find_actual_entry,
}

abbrev pub is_zero : Sign → Bool
is_zero negative = false
is_zero zero_sign = true
is_zero positive = false

-- The first entry that passes the test.
abbrev pub first_where : (Entry → Bool) → List Entry → Option Entry
first_where test [] = none
first_where test (e ∷ l) = if test e then some e else first_where test l

abbrev pub or_else : Option Entry → Option Entry → Option Entry
or_else none other = other
or_else (some e) other = some e

module _ (fcompare : String → String → Sign) (word : String) (features : Features) where
  abbrev pub heads : Entry → Bool
  heads e = is_zero (bl_match_entry fcompare e word)

  abbrev pub fits : Entry → Bool
  fits e = heads e && match_features features e.pos

  Sign-cases : (x : Sign) → (x ≡ negative) ⊎ ((x ≡ zero_sign) ⊎ (x ≡ positive))
  Sign-cases negative = inl refl
  Sign-cases zero_sign = inr (inl refl)
  Sign-cases positive = inr (inr refl)

  or_first_else :
      (f : Option Entry) (e : Entry) (o : Option Entry)
      → or_else (or_first f e) o ≡ or_else f (some e)
  or_first_else none e o = refl
  or_first_else (some f) e o = refl

  addenda_loop_lem :
      (potential : Option Entry) (l : List Entry)
      → addenda_loop fcompare word features potential l
        ≡ or_else (first_where fits l) (or_else potential (first_where heads l))
  unfolding addenda_loop bl_match_entry
  addenda_loop_lem none [] = refl
  addenda_loop_lem (some e) [] = refl
  addenda_loop_lem potential (e ∷ l) = elim (Sign-cases (bl_match_entry fcompare e word)) [
    | inl h ↦ rw (h, addenda_loop) (addenda_loop_lem potential l)
    | inr (inr h) ↦ rw (h, addenda_loop) (addenda_loop_lem potential l)
    | inr (inl h) ↦ elim (Bool-cases (match_features features e.pos)) [
      | inl m ↦ rw (h, addenda_loop, m) refl
      | inr m ↦
          rw (h, addenda_loop, m)
            (addenda_loop_lem (or_first potential e) l
              ∙ ap (or_else (first_where fits l)) (or_first_else potential e (first_where heads l)))
    ]
  ]

  -- The search of the addenda gives the first entry for the word whose features match, and where there is
  -- none the first entry for the word, if any.
  pub lookup_addenda_lem :
      (addenda : List Entry)
      → lookup_addenda fcompare word features addenda
        ≡ or_else (first_where fits addenda) (first_where heads addenda)
  unfolding lookup_addenda
  lookup_addenda_lem addenda = addenda_loop_lem none addenda

  -- The entry does not end the search: it is not behind the word, and is not the word with its features.
  abbrev pub IsPassed : Entry → Type 0
  IsPassed e = (bl_match_entry fcompare e word ≢ negative) × (fits e ≡ false)

  unequal : (h m : Bool) → h ≡ true → h && m ≡ false → m ≡ false
  unequal h m e both = rw e at both

  actual_loop-passed :
      (group rest : List Entry) (f_entry : Option Entry) (matched : List Entry)
      → All IsPassed group
      → (matched' : List Entry) × (actual_loop fcompare word features f_entry matched
            (group ++ rest)
          ≡ actual_loop fcompare word features
              (or_else f_entry (first_where heads group))
              matched'
              rest)
  unfolding actual_loop bl_match_entry
  actual_loop-passed [] rest none matched p = (matched, refl)
  actual_loop-passed [] rest (some f) matched p = (matched, refl)
  actual_loop-passed (e ∷ group) rest f_entry matched p =
      elim (Sign-cases (bl_match_entry fcompare e word)) [
        | inl h ↦ absurd (p.0.0 h)
        | inr (inr h) ↦ rw (h, actual_loop) (actual_loop-passed group rest f_entry matched p.1)
        | inr (inl h) ↦
            let m = unequal (heads e) (match_features features e.pos) (ap is_zero h) p.0.1 in
            let (found, same) =
              actual_loop-passed group rest (or_first f_entry e) (e ∷ matched) p.1 in
            rw (h, actual_loop, m)
              (
                found,
                same
                    ∙ ap (λ o. actual_loop fcompare word features o found rest)
                        (or_first_else f_entry e (first_where heads group)),
              )
      ]

  find_actual_entry-cons :
      (group rest : List Entry) (e eof : Entry)
      → find_actual_entry fcompare word features eof (group ++ e ∷ rest)
        ≡ actual_loop fcompare word features none [] (group ++ e ∷ rest)
  unfolding find_actual_entry
  find_actual_entry-cons [] rest e eof = refl
  find_actual_entry-cons (x ∷ group) rest e eof = refl

  result_at :
      (group rest : List Entry) (e eof : Entry) (result : Option Entry)
      → All IsPassed group
      → ((matched : List Entry)
          → (actual_loop fcompare word features
              (or_else none (first_where heads group))
              matched
              (e ∷ rest)).0
            ≡ result)
      → (find_actual_entry fcompare word features eof (group ++ e ∷ rest)).0 ≡ result
  result_at group rest e eof result p h =
      let (matched, same) = actual_loop-passed group (e ∷ rest) none [] p in
      ap (λ (o : Option Entry × List Entry). o.0) (find_actual_entry-cons group rest e eof ∙ same)
      ∙ h matched

  -- At the end of the file, behind entries that do not end the search.
  result_at_end :
      (x : Entry) (group : List Entry) (eof : Entry)
      → All IsPassed (x ∷ group)
      → (find_actual_entry fcompare word features eof (x ∷ group)).0 ≡ none
  unfolding find_actual_entry actual_loop
  result_at_end x group eof p =
      let (matched, same) = actual_loop-passed (x ∷ group) [] none [] p in
      ap (λ (o : Option Entry × List Entry). o.0)
        (ap (actual_loop fcompare word features none []) (sym (append-nil (x ∷ group))) ∙ same)

  -- What is read at the end of the file, where no entries are left.
  result_of_none :
      (eof : Entry)
      → (find_actual_entry fcompare word features eof []).0 ≡ first_where fits (eof ∷ [])
  unfolding find_actual_entry actual_loop bl_match_entry
  result_of_none eof = elim (Sign-cases (bl_match_entry fcompare eof word)) [
    | inl h ↦ rw (h, actual_loop) refl
    | inr (inr h) ↦ rw (h, actual_loop) refl
    | inr (inl h) ↦ elim (Bool-cases (match_features features eof.pos)) [
      | inl m ↦ rw (h, actual_loop, m) refl
      | inr m ↦ rw (h, actual_loop, m) refl
    ]
  ]

  actual_loop-behind :
      (e : Entry) (rest : List Entry) (f_entry : Option Entry) (matched : List Entry)
      → bl_match_entry fcompare e word ≡ negative
      → (actual_loop fcompare word features f_entry matched (e ∷ rest)).0 ≡ f_entry
  unfolding actual_loop bl_match_entry
  actual_loop-behind e rest f_entry matched h = rw (h, actual_loop) refl

  actual_loop-fitting :
      (e : Entry) (rest : List Entry) (f_entry : Option Entry) (matched : List Entry)
      → bl_match_entry fcompare e word ≡ zero_sign
      → match_features features e.pos ≡ true
      → (actual_loop fcompare word features f_entry matched (e ∷ rest)).0 ≡ some e
  unfolding actual_loop bl_match_entry
  actual_loop-fitting e rest f_entry matched h m = rw (h, actual_loop, m) refl

  -- Behind entries that do not end the search, it returns the next entry, if this is the word with its
  -- features, and the first of the passed entries for the word, if the next entry is behind the word. At the
  -- end of the file it returns nothing behind such entries, even where some of them are for the word; where
  -- there are no entries it returns what is read there, if this is the word with its features, and else
  -- nothing.
  pub find_actual_entry_lem :
      (eof : Entry) (group : List Entry)
      → All IsPassed group
      → ((e : Entry) (rest : List Entry)
          → ((bl_match_entry fcompare e word ≡ zero_sign) × (match_features features e.pos ≡ true)
              → (find_actual_entry fcompare word features eof (group ++ e ∷ rest)).0 ≡ some e)
            × (bl_match_entry fcompare e word ≡ negative
                → (find_actual_entry fcompare word features eof (group ++ e ∷ rest)).0
                  ≡ first_where heads group))
        × (group ≢ [] → (find_actual_entry fcompare word features eof group).0 ≡ none)
        × ((find_actual_entry fcompare word features eof []).0 ≡ first_where fits (eof ∷ []))
  find_actual_entry_lem eof group p = (
    (λ e rest. (
      (λ h.
          result_at group rest e eof (some e) p
            λ matched. actual_loop-fitting e rest _ matched h.0 h.1),
      (λ h.
          result_at group rest e eof _ p
            λ matched. actual_loop-behind e rest (first_where heads group) matched h),
    )),
    at_end group p,
    result_of_none eof,
  )
    where
      at_end :
          (group : List Entry)
          → All IsPassed group
          → group ≢ []
          → (find_actual_entry fcompare word features eof group).0 ≡ none
      at_end [] p some_passed = absurd (some_passed refl)
      at_end (x ∷ group) p some_passed = result_at_end x group eof p
