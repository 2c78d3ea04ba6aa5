-- ===== src/Lexicon/Lookup.antt =====
-- `Lexicon::lookup`, `lookup_lts`, `lookup_all` and `in_lexicon` in lexicon.cc, with `map_pos` of
-- festival.cc.
use speech_synthesis_system.Base.{
  ℕ, ◌+◌, String, Bool, true, false, ◌||◌, Option, none, some, Outcome, ok, err, ◌>>=◌, List, [],
  ◌∷◌, ◌++◌, reverse, str_eq, if◌then◌else◌,
}
use speech_synthesis_system.Lexicon.Entries.{
  Sign, Atom, symbol, flonum, Features, nil, atom, cell, Entry, lookup_addenda, addenda_entries,
}
use speech_synthesis_system.Lexicon.Cache.{Index, bottom}
use speech_synthesis_system.Lexicon.Region.{widths}
use speech_synthesis_system.Lexicon.Registry.{Lexicon}
use speech_synthesis_system.Lexicon.File.{Compiled, Answer, lookup_complex}

-- A list of lists of texts, each with what these are mapped to.
abbrev pub PosMap : Type 0
PosMap = List (List String × Features)

unfoldable pub member_str : String → List String → Bool
member_str s [] = false
member_str s (t ∷ l) = if str_eq s t then true else member_str s l

-- `get_c_string` of a symbol or a number.
abbrev pub atom_text : Atom → String
atom_text (symbol s) = s
atom_text (flonum s) = s

unfoldable pub mapped_atom : PosMap → Atom → Features
unfolding member_str
mapped_atom [] pos = atom pos
mapped_atom ((tags, to) ∷ l) pos = if member_str (atom_text pos) tags then to else mapped_atom l pos

unfoldable pub map_pos : PosMap → Features → Features
unfolding mapped_atom
map_pos posmap nil = nil
map_pos posmap (cell a l) = cell a l
map_pos posmap (atom a) = mapped_atom posmap a

-- The part of the lexicon that the searches change. `binlexfp` is the file that is open;
-- `comp_num_entries` of -1 is `none`. The counter `lex_entry_match` is left out.
pub record Memory : Type 0 where
  pub binlexfp : Option Compiled
  pub index_cache : Index
  pub comp_num_entries : Option ℕ
  pub matched_lexical_entries : List Entry

-- The messages before `festival_error`; `no_return` is a search that does not come to an end.
pub data LookupError : Type 0 where
  no_compile_file not_readable no_magic_number not_compiled not_in_lexicon no_return : LookupError

-- What is under a name: nothing that can be read, less than four bytes, or four bytes, the `num_entries`
-- of the features behind them, and the rest.
pub data Contents : Type 0 where
  missing short : Contents
  magic : String → Option ℕ → Compiled → Contents

unfoldable pub checked : Contents → Outcome LookupError (Option ℕ × Compiled)
checked missing = err not_readable
checked short = err no_magic_number
checked (magic magic_number num_entries file) =
    if str_eq "MNCM" magic_number
    then ok (num_entries, file)
    else if str_eq "MNCL" magic_number
    then ok (none, file)
    else err not_compiled

-- An error ends what is asked of the lexicon: that a file with another magic number stays open is left out.
unfoldable pub binlex_init : String → Contents → Memory → Outcome LookupError (Compiled × Memory)
unfolding checked
binlex_init bl_filename contents m =
    let opened = (do
      (num_entries, file) ← checked contents
      ok (
        file,
        record m {
          binlexfp = some file;
          comp_num_entries = num_entries;
          index_cache = bottom file.blstart (file.blstart + 1 + widths file.lines);
        },
      )) in
    elim m.binlexfp [
      | some file ↦ ok (file, m)
      | none ↦ if str_eq bl_filename "" then err no_compile_file else opened
    ]

-- What the class calls: `fcompare`, the contents of files, the comparison of two pointers, the rules of
-- `lts`, the evaluation of a function of the name, and what the LISP values of a lexicon stand for.
pub record Calls (Lisp : Type 0) : Type 0 where
  pub fcompare : String → String → Sign
  pub contents : String → Contents
  pub same : Features → Features → Bool
  pub lts : String → Features → String → Outcome LookupError Entry
  pub leval : String → String → Features → Outcome LookupError Entry
  pub posmap_of : Lisp → PosMap
  pub pre_hooks_of : Lisp → Option (String → Features → String × Features)
  pub post_hooks_of : Lisp → Option (Entry → Entry)

abbrev pub hooked :
    Option (String → Features → String × Features) → String → Features → String × Features
hooked none word features = (word, features)
hooked (some hook) word features = hook word features

abbrev pub after : Option (Entry → Entry) → Entry → Entry
after none entry = entry
after (some hook) entry = hook entry

abbrev pub is_nil : Features → Bool
is_nil nil = true
is_nil (atom a) = false
is_nil (cell a l) = false

abbrev pub is_some : Option Entry → Bool
is_some none = false
is_some (some entry) = true

module _ {Lisp : Type 0} (calls : Calls Lisp) (l : Lexicon Lisp) where
  abbrev pub remember : Memory → Option Answer → Outcome LookupError (Option Entry × Memory)
  remember m none = err no_return
  remember m (some a) =
      ok (a.found, record m { index_cache = a.index_cache; matched_lexical_entries = a.matched })

  -- `lookup_complex`, which opens the file.
  unfoldable pub lookup_file :
      String → Features → Memory → Outcome LookupError (Option Entry × Memory)
  unfolding binlex_init lookup_complex
  lookup_file word features m =
      let searched = (do
        (file, m') ← binlex_init l.bl_filename (calls.contents l.bl_filename) m
        remember m' (lookup_complex calls.fcompare file word features m'.index_cache)) in
      if str_eq l.bl_filename "" then ok (none, m) else searched

  unfoldable pub lookup_lts : String → Features → Outcome LookupError Entry
  lookup_lts word features =
      if str_eq l.lts_method "" || str_eq l.lts_method "Error"
      then err not_in_lexicon
      else if str_eq l.lts_method "lts_rules"
      then calls.lts word features l.lts_ruleset
      else if str_eq l.lts_method "none"
      then ok (record { headword = word; pos = nil; pronunciation = "(nil)" })
      else if str_eq l.lts_method "function"
      then calls.leval "lex_user_unknown_word" word features
      else calls.leval l.lts_method word features

  unfoldable pub or_lts :
      String → Features → Option Entry × Memory → Outcome LookupError (Entry × Memory)
  unfolding lookup_lts
  or_lts word features (some entry, m) = ok (entry, m)
  or_lts word features (none, m) = do entry ← lookup_lts word features; ok (entry, m)

  -- An entry of the addenda, or that of the file whose part of speech is the one asked for.
  unfoldable pub preferred : Features → Entry → Option Entry → Entry
  preferred mapped entry none = entry
  preferred mapped entry (some entry2) = if calls.same mapped entry2.pos then entry2 else entry

  unfoldable pub find_entry : String → Features → Memory → Outcome LookupError (Entry × Memory)
  unfolding lookup_addenda lookup_file or_lts preferred
  find_entry sword mapped m =
      let unlisted = (do r ← lookup_file sword mapped m; or_lts sword mapped r) in
      elim (lookup_addenda calls.fcompare sword mapped l.addenda) [
        | none ↦ unlisted
        | some entry ↦
            let compared = (do
              (entry2, m') ← lookup_file sword mapped m
              ok (preferred mapped entry entry2, m')) in
            if is_nil mapped || is_nil entry.pos || calls.same mapped entry.pos
            then ok (entry, m)
            else compared
      ]

  unfoldable pub lookup : String → Features → Memory → Outcome LookupError (Entry × Memory)
  unfolding find_entry map_pos
  lookup word features m =
      let (sword, tags) = hooked (calls.pre_hooks_of l.pre_hooks) word features in
      do
        (entry, m') ← find_entry sword (map_pos (calls.posmap_of l.posmap) tags) m
        ok (after (calls.post_hooks_of l.post_hooks) entry, m')

  unfoldable pub lookup_all : String → Memory → Outcome LookupError (List Entry × Memory)
  unfolding lookup_file addenda_entries
  lookup_all word m = do
    (entry, m') ← lookup_file word (atom (flonum "-1")) m
    ok (
      reverse (m'.matched_lexical_entries ++ addenda_entries calls.fcompare word l.addenda []),
      m',
    )

  unfoldable pub in_lexicon : String → Features → Memory → Outcome LookupError (Bool × Memory)
  unfolding lookup_addenda lookup_file
  in_lexicon word features m =
      let in_file = (do (entry, m') ← lookup_file word features m; ok (is_some entry, m')) in
      elim (lookup_addenda calls.fcompare word features l.addenda) [
        | some entry ↦ ok (true, m)
        | none ↦ in_file
      ]
