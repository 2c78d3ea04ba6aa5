-- ===== src/Lexicon/Entries.antt =====
-- Lexical entries in lexicon.cc: `match_features`, the search of the addenda, and the search of the
-- compiled entries from a place before the word.
use speech_synthesis_system.Base.{
  String, Bool, true, false, Option, none, some, List, [], ◌∷◌, str_eq, if◌then◌else◌,
}

-- The sign of `fcompare`.
pub data Sign : Type 0 where
  negative zero_sign positive : Sign

-- A part of speech is a symbol or a number, which is here by its printed form.
pub data Atom : Type 0 where
  symbol flonum : String → Atom

unfoldable pub eql : Atom → Atom → Bool
eql (symbol a) (symbol b) = str_eq a b
eql (flonum a) (flonum b) = str_eq a b
eql (symbol a) (flonum b) = false
eql (flonum a) (symbol b) = false

-- NIL, an atom, or a cell.
pub data Features : Type 0 where
  nil : Features
  atom : Atom → Features
  cell : Atom → List Atom → Features

unfoldable pub is_among : Atom → List Atom → Bool
unfolding eql
is_among a [] = false
is_among a (b ∷ l) = if eql a b then true else is_among a l

unfoldable pub all_among : List Atom → List Atom → Bool
unfolding is_among
all_among [] act = true
all_among (a ∷ l) act = if is_among a act then all_among l act else false

-- Two cells that are `eql` are the same cell, whose members are among its members.
unfoldable pub match_features : Features → Features → Bool
unfolding all_among eql
match_features nil act = true
match_features (atom a) (atom b) = eql a b
match_features (cell a l) (cell b m) = all_among (a ∷ l) (b ∷ m)
match_features (atom a) nil = false
match_features (atom a) (cell b m) = false
match_features (cell a l) nil = false
match_features (cell a l) (atom b) = false

-- `pronunciation` is the text of what stands behind the word and its features.
pub record Entry : Type 0 where
  pub headword : String
  pub pos : Features
  pub pronunciation : String

abbrev pub or_first : Option Entry → Entry → Option Entry
or_first none e = some e
or_first (some f) e = some f

-- `fcompare` of the string library orders a word and a headword.
module _ (fcompare : String → String → Sign) where
  unfoldable pub bl_match_entry : Entry → String → Sign
  bl_match_entry entry word = fcompare word entry.headword

  -- The loop of `lookup_addenda`, with `potential`.
  unfoldable pub addenda_loop : String → Features → Option Entry → List Entry → Option Entry
  unfolding bl_match_entry match_features
  addenda_loop word features potential [] = potential
  addenda_loop word features potential (e ∷ l) =
      let passed_over = addenda_loop word features potential l in
      let kept = addenda_loop word features (or_first potential e) l in
      elim (bl_match_entry e word) [
        | negative ↦ passed_over
        | positive ↦ passed_over
        | zero_sign ↦ if match_features features e.pos then some e else kept
      ]

  unfoldable pub lookup_addenda : String → Features → List Entry → Option Entry
  unfolding addenda_loop
  lookup_addenda word features addenda = addenda_loop word features none addenda

  -- The second loop of `bl_find_actual_entry`, over the entry that is read and those behind it, with
  -- `f_entry` and `matched_lexical_entries`; where the next one read is the end of the file it returns NIL.
  unfoldable pub actual_loop :
      String → Features → Option Entry → List Entry → List Entry → Option Entry × List Entry
  unfolding bl_match_entry match_features
  actual_loop word features f_entry matched [] = (none, matched)
  actual_loop word features f_entry matched (e ∷ l) =
      let passed_over = actual_loop word features f_entry matched l in
      let kept = actual_loop word features (or_first f_entry e) (e ∷ matched) l in
      elim (bl_match_entry e word) [
        | negative ↦ (f_entry, matched)
        | positive ↦ passed_over
        | zero_sign ↦ if match_features features e.pos then (some e, e ∷ matched) else kept
      ]

  -- The first entry is read without a test for the end of the file: where no entries are left, what is read
  -- there, `eof`, is compared with the word as an entry is.
  unfoldable pub find_actual_entry :
      String → Features → Entry → List Entry → Option Entry × List Entry
  unfolding actual_loop
  find_actual_entry word features eof [] = actual_loop word features none [] (eof ∷ [])
  find_actual_entry word features eof (e ∷ l) = actual_loop word features none [] (e ∷ l)

  -- The entries of the addenda for the word, last first, as `lookup_all` collects them.
  unfoldable pub addenda_entries : String → List Entry → List Entry → List Entry
  unfolding bl_match_entry
  addenda_entries word [] entries = entries
  addenda_entries word (e ∷ l) entries =
      let passed_over = addenda_entries word l entries in
      let kept = addenda_entries word l (e ∷ entries) in
      elim (bl_match_entry e word) [
        | negative ↦ passed_over
        | positive ↦ passed_over
        | zero_sign ↦ kept
      ]
