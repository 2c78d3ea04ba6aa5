-- ===== src/Lexicon/Sharing.antt =====
-- Selecting lexicons and adding entries in lexicon.cc.
use speech_synthesis_system.Base.{
  ℕ, String, ◌≡◌, ◌≢◌, refl, sym, ap, ◌∙◌, true, Option, none, some, Outcome, ok, err, List, ◌∷◌,
  get_elem?, set, get_elem?-set_same, get_elem?-bound,
}
use speech_synthesis_system.Lexicon.Entries.{
  Sign, negative, zero_sign, positive, Features, Entry, match_features, bl_match_entry,
  lookup_addenda, addenda_loop,
}
use speech_synthesis_system.Lexicon.Registry.{
  LexiconError, Lexicon, Lexicons, place_in, check_current_lex, lexicon_at, current_lexicon,
  change_current, lex_add_entry, add_addenda, lex_select_lex, or_not_defined, no_lexicon,
  bad_pointer,
}

place_or_error : Option ℕ → Outcome LexiconError ℕ
place_or_error found = elim found [ none ↦ err no_lexicon | some i ↦ ok i ]

module _ (fcompare : String → String → Sign) where
  pub added_found :
      (word : String) (features : Features) (e : Entry) (l : List Entry)
      → bl_match_entry fcompare e word ≡ zero_sign
      → match_features features e.pos ≡ true
      → lookup_addenda fcompare word features (e ∷ l) ≡ some e
  unfolding lookup_addenda addenda_loop bl_match_entry
  added_found word features e l h m = rw (h, addenda_loop, m) refl

  added_other :
      (word : String) (features : Features) (e : Entry) (l : List Entry) (x : Sign)
      → bl_match_entry fcompare e word ≡ x
      → x ≢ zero_sign
      → lookup_addenda fcompare word features (e ∷ l) ≡ lookup_addenda fcompare word features l
  unfolding lookup_addenda addenda_loop bl_match_entry
  added_other word features e l negative h n = rw (h, addenda_loop) refl
  added_other word features e l positive h n = rw (h, addenda_loop) refl
  added_other word features e l zero_sign h n = absurd (n refl)

module _ {Lisp : Type 0} where
  or_bad_pointer : Option (Lexicon Lisp) → Outcome LexiconError (Lexicon Lisp)
  or_bad_pointer found = elim found [ none ↦ err bad_pointer | some l ↦ ok l ]

  lexicon_at-get_elem? :
      (s : Lexicons Lisp) (i : ℕ) (found : Option (Lexicon Lisp))
      → get_elem? s.made i ≡ found
      → lexicon_at s i ≡ or_bad_pointer found
  unfolding lexicon_at or_bad_pointer
  lexicon_at-get_elem? s i found e = ap or_bad_pointer e

  check_current_lex-some :
      (s : Lexicons Lisp) (i : ℕ) → s.current_lex ≡ some i → check_current_lex s ≡ ok i
  unfolding check_current_lex place_or_error
  check_current_lex-some s i c = ap place_or_error c

  lexicon_at-some :
      (s : Lexicons Lisp) (i : ℕ) (l : Lexicon Lisp)
      → get_elem? s.made i ≡ some l
      → lexicon_at s i ≡ ok l
  unfolding or_bad_pointer
  lexicon_at-some s i l e = lexicon_at-get_elem? s i (some l) e

  current_lexicon-some :
      (s : Lexicons Lisp) (i : ℕ) (l : Lexicon Lisp)
      → s.current_lex ≡ some i
      → get_elem? s.made i ≡ some l
      → current_lexicon s ≡ ok l
  unfolding current_lexicon
  current_lexicon-some s i l c e = rw (check_current_lex-some s i c) (lexicon_at-some s i l e)

  lex_select_lex-ok :
      (s : Lexicons Lisp) (j : ℕ) (l : Lexicon Lisp) (lexname : String)
      → current_lexicon s ≡ ok l
      → place_in lexname s.lexicon_list ≡ some j
      → lex_select_lex lexname s ≡ ok (l.name, record s { current_lex = some j })
  unfolding lex_select_lex or_not_defined
  lex_select_lex-ok s j l lexname c found = rw (c, found) refl

  -- Where the current lexicon stands under its own name, selecting a lexicon by name makes it current and
  -- gives the name of the last one, and selecting by that name leads back to the same state.
  pub lex_select_lex-back :
      (s : Lexicons Lisp) (i j : ℕ) (l m : Lexicon Lisp) (lexname : String)
      → s.current_lex ≡ some i
      → get_elem? s.made i ≡ some l
      → place_in l.name s.lexicon_list ≡ some i
      → place_in lexname s.lexicon_list ≡ some j
      → get_elem? s.made j ≡ some m
      → (t : Lexicons Lisp) × (lex_select_lex lexname s ≡ ok (l.name, t))
        × (current_lexicon t ≡ ok m)
        × (lex_select_lex l.name t ≡ ok (m.name, s))
  lex_select_lex-back s i j l m lexname c here named found there =
      let t : Lexicons Lisp = record s { current_lex = some j } in
      let now = current_lexicon-some t j m refl there in
      (
        t,
        lex_select_lex-ok s j l lexname (current_lexicon-some s i l c here) found,
        now,
        lex_select_lex-ok t i m l.name now named
            ∙ ap (λ k. ok (m.name, record s { current_lex = k })) (sym c),
      )

  change_current-ok :
      (change : Lexicon Lisp → Lexicon Lisp) (s : Lexicons Lisp) (i : ℕ) (l : Lexicon Lisp)
      → s.current_lex ≡ some i
      → get_elem? s.made i ≡ some l
      → change_current change s ≡ ok (record s { made = set s.made i (change l) })
  unfolding change_current
  change_current-ok change s i l c e =
      rw (check_current_lex-some s i c, lexicon_at-some s i l e) refl

  change_current-lexicon :
      (change : Lexicon Lisp → Lexicon Lisp) (s : Lexicons Lisp) (i : ℕ) (l : Lexicon Lisp)
      → s.current_lex ≡ some i
      → get_elem? s.made i ≡ some l
      → current_lexicon (record s { made = set s.made i (change l) }) ≡ ok (change l)
  change_current-lexicon change s i l c e =
      current_lexicon-some (record s { made = set s.made i (change l) }) i (change l) c
        (get_elem?-set_same s.made i (change l) (get_elem?-bound s.made i l e))

  module _ (fcompare : String → String → Sign) where
    -- With a current lexicon, `lex_add_entry` returns, and in its addenda the new entry is found before all
    -- others for its word and features that match, while other words find what they found.
    pub lex_add_entry-lookup_addenda :
        (s : Lexicons Lisp) (i : ℕ) (l : Lexicon Lisp) (e : Entry)
        → s.current_lex ≡ some i
        → get_elem? s.made i ≡ some l
        → (t : Lexicons Lisp) × (lex_add_entry e s ≡ ok t)
          × (l' : Lexicon Lisp) × (current_lexicon t ≡ ok l')
          × ((word : String) (features : Features)
              → ((bl_match_entry fcompare e word ≡ zero_sign)
                    × (match_features features e.pos ≡ true)
                  → lookup_addenda fcompare word features l'.addenda ≡ some e)
                × (bl_match_entry fcompare e word ≢ zero_sign
                    → lookup_addenda fcompare word features l'.addenda
                      ≡ lookup_addenda fcompare word features l.addenda))
    unfolding lex_add_entry add_addenda
    lex_add_entry-lookup_addenda s i l e c at_i = (
      record s { made = set s.made i (add_addenda e l) },
      change_current-ok (add_addenda e) s i l c at_i,
      add_addenda e l,
      change_current-lexicon (add_addenda e) s i l c at_i,
      λ word features. (
        (λ h. added_found fcompare word features e l.addenda h.0 h.1),
        (λ n. added_other fcompare word features e l.addenda _ refl n),
      ),
    )
