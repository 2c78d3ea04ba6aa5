-- ===== src/Lexicon/Registry.antt =====
-- The lexicons of lexicon.cc, the list of them and the current one, with the commands over them. A
-- `Lexicon *` is a place in the list of the lexicons that have been made.
use speech_synthesis_system.Base.{
  ℕ, String, Bool, false, Option, none, some, Outcome, ok, err, ◌>>=◌, List, [], ◌∷◌, ◌++◌, length,
  get_elem?, set, str_eq, if◌then◌else◌,
}
use speech_synthesis_system.Lexicon.Entries.{Entry}

-- The messages before `festival_error`; `bad_pointer` is a pointer to nothing.
pub data LexiconError : Type 0 where
  no_lexicon no_ruleset_name not_defined bad_pointer : LexiconError

-- `Lisp` is the type of the values that the class only stores. The file is open or not.
pub record Lexicon (Lisp : Type 0) : Type 0 where
  pub name : String
  pub ps_name : String
  pub addenda : List Entry
  pub posmap : Lisp
  pub bl_filename : String
  pub binlexfp : Bool
  pub lts_method : String
  pub lts_ruleset : String
  pub pre_hooks : Lisp
  pub post_hooks : Lisp

module _ {Lisp : Type 0} where
  unfoldable pub set_bl_filename : String → Lexicon Lisp → Lexicon Lisp
  set_bl_filename p l = record l { bl_filename = p; binlexfp = false }

  unfoldable pub add_addenda : Entry → Lexicon Lisp → Lexicon Lisp
  add_addenda entry l = record l { addenda = entry ∷ l.addenda }

-- The constructor, and `set_lex_name`.
unfoldable pub new_lexicon : {Lisp : Type 0} → Lisp → String → Lexicon Lisp
new_lexicon nil lexname = record {
  name = lexname;
  ps_name = "";
  addenda = [];
  posmap = nil;
  bl_filename = "";
  binlexfp = false;
  lts_method = "";
  lts_ruleset = "";
  pre_hooks = nil;
  post_hooks = nil;
}

pub record Lexicons (Lisp : Type 0) : Type 0 where
  pub made : List (Lexicon Lisp)
  pub lexicon_list : List (String × ℕ)
  pub current_lex : Option ℕ

unfoldable pub place_in : String → List (String × ℕ) → Option ℕ
place_in lexname [] = none
place_in lexname ((k, i) ∷ l) = if str_eq lexname k then some i else place_in lexname l

unfoldable pub replace_place : String → ℕ → List (String × ℕ) → List (String × ℕ)
replace_place lexname i [] = []
replace_place lexname i ((k, old) ∷ l) =
    if str_eq lexname k then (k, i) ∷ l else (k, old) ∷ replace_place lexname i l

unfoldable pub lex_add_lexicon : String → ℕ → List (String × ℕ) → List (String × ℕ)
unfolding place_in replace_place
lex_add_lexicon lexname i l = elim (place_in lexname l) [
  | none ↦ (lexname, i) ∷ l
  | some old ↦ replace_place lexname i l
]

unfoldable pub lex_list : List (String × ℕ) → List String → List String
lex_list [] lexica = lexica
lex_list ((k, i) ∷ l) lexica = lex_list l (k ∷ lexica)

abbrev pub method_name : Option String → String
method_name none = "none"
method_name (some m) = m

unfoldable pub or_not_defined : Option ℕ → Outcome LexiconError ℕ
or_not_defined none = err not_defined
or_not_defined (some i) = ok i

module _ {Lisp : Type 0} where
  unfoldable pub check_current_lex : Lexicons Lisp → Outcome LexiconError ℕ
  check_current_lex s = elim s.current_lex [ none ↦ err no_lexicon | some i ↦ ok i ]

  unfoldable pub lexicon_at : Lexicons Lisp → ℕ → Outcome LexiconError (Lexicon Lisp)
  lexicon_at s i = elim (get_elem? s.made i) [ none ↦ err bad_pointer | some l ↦ ok l ]

  unfoldable pub current_lexicon : Lexicons Lisp → Outcome LexiconError (Lexicon Lisp)
  unfolding check_current_lex lexicon_at
  current_lexicon s = do i ← check_current_lex s; lexicon_at s i

  -- A change of the current lexicon, through the pointer.
  unfoldable pub change_current :
      (Lexicon Lisp → Lexicon Lisp) → Lexicons Lisp → Outcome LexiconError (Lexicons Lisp)
  unfolding check_current_lex lexicon_at
  change_current change s = do
    i ← check_current_lex s
    l ← lexicon_at s i
    ok (record s { made = set s.made i (change l) })

  unfoldable pub lex_set_compile_file :
      String → Lexicons Lisp → Outcome LexiconError (Lexicons Lisp)
  unfolding change_current set_bl_filename
  lex_set_compile_file filename s = change_current (set_bl_filename filename) s

  unfoldable pub lex_add_entry : Entry → Lexicons Lisp → Outcome LexiconError (Lexicons Lisp)
  unfolding change_current add_addenda
  lex_add_entry entry s = change_current (add_addenda entry) s

  unfoldable pub lex_set_lts_method :
      Option String → Lexicons Lisp → Outcome LexiconError (Lexicons Lisp)
  unfolding change_current
  lex_set_lts_method method s =
      change_current (λ (l : Lexicon Lisp). record l { lts_method = method_name method }) s

  unfoldable pub lex_set_lts_ruleset :
      Option String → Lexicons Lisp → Outcome LexiconError (Lexicons Lisp)
  unfolding change_current check_current_lex
  lex_set_lts_ruleset none s = do i ← check_current_lex s; err no_ruleset_name
  lex_set_lts_ruleset (some sruleset) s =
      change_current (λ (l : Lexicon Lisp). record l { lts_ruleset = sruleset }) s

  unfoldable pub lex_set_pos_map : Lisp → Lexicons Lisp → Outcome LexiconError (Lexicons Lisp)
  unfolding change_current
  lex_set_pos_map m s = change_current (λ (l : Lexicon Lisp). record l { posmap = m }) s

  unfoldable pub lex_set_phoneset : String → Lexicons Lisp → Outcome LexiconError (Lexicons Lisp)
  unfolding change_current
  lex_set_phoneset phoneset s =
      change_current (λ (l : Lexicon Lisp). record l { ps_name = phoneset }) s

  -- With the hooks that were set before.
  unfoldable pub lex_set_pre_hooks :
      Lisp → Lexicons Lisp → Outcome LexiconError (Lisp × Lexicons Lisp)
  unfolding current_lexicon change_current
  lex_set_pre_hooks hooks s = do
    l ← current_lexicon s
    t ← change_current (λ (c : Lexicon Lisp). record c { pre_hooks = hooks }) s
    ok (l.pre_hooks, t)

  unfoldable pub lex_set_post_hooks :
      Lisp → Lexicons Lisp → Outcome LexiconError (Lisp × Lexicons Lisp)
  unfolding current_lexicon change_current
  lex_set_post_hooks hooks s = do
    l ← current_lexicon s
    t ← change_current (λ (c : Lexicon Lisp). record c { post_hooks = hooks }) s
    ok (l.post_hooks, t)

  unfoldable pub lex_current_phoneset : Lexicons Lisp → Outcome LexiconError String
  unfolding current_lexicon
  lex_current_phoneset s = do l ← current_lexicon s; ok l.ps_name

  unfoldable pub lex_create_lex : Lisp → String → Lexicons Lisp → Lexicons Lisp
  unfolding new_lexicon lex_add_lexicon
  lex_create_lex nil lexname s = record {
    made = s.made ++ new_lexicon nil lexname ∷ [];
    lexicon_list = lex_add_lexicon lexname (length s.made) s.lexicon_list;
    current_lex = some (length s.made);
  }

  -- The name of the lexicon that was current, and the choice of the named one.
  unfoldable pub lex_select_lex :
      String → Lexicons Lisp → Outcome LexiconError (String × Lexicons Lisp)
  unfolding current_lexicon place_in or_not_defined
  lex_select_lex lexname s = do
    last ← current_lexicon s
    i ← or_not_defined (place_in lexname s.lexicon_list)
    ok (last.name, record s { current_lex = some i })
