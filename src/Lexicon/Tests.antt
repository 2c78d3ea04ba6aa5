-- ===== src/Lexicon/Tests.antt =====
-- Runs of the searches and commands, and the theorems at concrete lexicons.
use speech_synthesis_system.Base.{
  ℕ, arith, String, ◌≡◌, ◌≢◌, inl, refl, true, none, some, List, [], ◌∷◌, ◌++◌, str_eq,
  if◌then◌else◌,
}
use speech_synthesis_system.Lexicon.Entries.{
  nil, Sign, negative, zero_sign, positive, symbol, atom, Entry, match_features, bl_match_entry,
  lookup_addenda, find_actual_entry,
}
use speech_synthesis_system.Lexicon.Found.{
  or_else, first_where, heads, fits, lookup_addenda_lem, find_actual_entry_lem,
}
use speech_synthesis_system.Lexicon.Registry.{Lexicon, Lexicons, new_lexicon}
use speech_synthesis_system.Lexicon.Cache.{bottom, bl_lookup_cache, add_to_cache}
use speech_synthesis_system.Lexicon.File.{Line, lookup_complex}
use speech_synthesis_system.Lexicon.Search.{compiled, Reads, lookup_complex-Reads}

-- An order of three words: `live`, `lives` and all others.
abbrev pub toy_compare : String → String → Sign
toy_compare word headword =
    if str_eq word headword
    then zero_sign
    else if str_eq word "live"
    then negative
    else if str_eq headword "live"
    then positive
    else if str_eq word "lives"
    then negative
    else positive

abbrev pub verb : Entry
verb = record { headword = "live"; pos = atom (symbol "v"); pronunciation = "l i v" }

abbrev pub adjective : Entry
adjective = record { headword = "live"; pos = atom (symbol "j"); pronunciation = "l ai v" }

abbrev pub third : Entry
third = record { headword = "lives"; pos = atom (symbol "v"); pronunciation = "l i v z" }

abbrev pub homographs : List Entry
homographs = verb ∷ adjective ∷ []

second_homograph : lookup_addenda toy_compare "live" (atom (symbol "j")) homographs ≡ some adjective
unfolding lookup_addenda
second_homograph = refl

lookup_addenda_lem_example :
    lookup_addenda toy_compare "live" (atom (symbol "n")) homographs
    ≡ or_else
        (first_where (fits toy_compare "live" (atom (symbol "n"))) homographs)
        (first_where (heads toy_compare "live" (atom (symbol "n"))) homographs)
lookup_addenda_lem_example = lookup_addenda_lem toy_compare "live" (atom (symbol "n")) homographs

abbrev end_of_toy : Entry
end_of_toy = record { headword = "eof"; pos = nil; pronunciation = "" }

not_negative : zero_sign ≢ negative
not_negative h = cc

-- For a noun, both homographs are passed over.
find_actual_entry_lem_example :
    ((e : Entry) (rest : List Entry)
      → ((bl_match_entry toy_compare e "live" ≡ zero_sign)
            × (match_features (atom (symbol "n")) e.pos ≡ true)
          → (find_actual_entry toy_compare "live"
              (atom (symbol "n"))
              end_of_toy
              (homographs ++ e ∷ rest)).0
            ≡ some e)
        × (bl_match_entry toy_compare e "live" ≡ negative
            → (find_actual_entry toy_compare "live"
                (atom (symbol "n"))
                end_of_toy
                (homographs ++ e ∷ rest)).0
              ≡ first_where (heads toy_compare "live" (atom (symbol "n"))) homographs))
    × (homographs ≢ []
        → (find_actual_entry toy_compare "live" (atom (symbol "n")) end_of_toy homographs).0 ≡ none)
    × ((find_actual_entry toy_compare "live" (atom (symbol "n")) end_of_toy []).0
        ≡ first_where (fits toy_compare "live" (atom (symbol "n"))) (end_of_toy ∷ []))
unfolding bl_match_entry match_features
find_actual_entry_lem_example =
    find_actual_entry_lem toy_compare "live" (atom (symbol "n")) end_of_toy homographs
      ((not_negative, refl), ((not_negative, refl), tt))

-- The first homograph is found where another word follows, and is lost at the end of the file.
found_before_another :
    (find_actual_entry toy_compare "live"
      (atom (symbol "n"))
      end_of_toy
      (homographs ++ third ∷ [])).0
    ≡ some verb
unfolding find_actual_entry
found_before_another = refl

lost_at_end :
    (find_actual_entry toy_compare "live" (atom (symbol "n")) end_of_toy homographs).0 ≡ none
unfolding find_actual_entry
lost_at_end = refl

-- The word `eof` without features is found where no entries are left.
found_end : (find_actual_entry toy_compare "eof" nil end_of_toy []).0 ≡ some end_of_toy
unfolding find_actual_entry
found_end = refl

abbrev english : Lexicon String
english = unfold new_lexicon in new_lexicon "" "english"

abbrev scottish : Lexicon String
scottish = unfold new_lexicon in new_lexicon "" "scottish"

abbrev two_lexicons : Lexicons String
two_lexicons = record {
  made = english ∷ scottish ∷ [];
  lexicon_list = ("scottish", 1) ∷ ("english", 0) ∷ [];
  current_lex = some 1;
}

upper_part :
    (bl_lookup_cache toy_compare
      (add_to_cache toy_compare (bottom 4 900) "live" 4 452 900)
      "lives"
      0).0
    ≡ (452, 900)
unfolding bl_lookup_cache add_to_cache
upper_part = refl

abbrev pub line_of : Entry → ℕ → Line
line_of e width = record { entry = e; width = width }

abbrev pub last_entry : Entry
last_entry = record { headword = "zoo"; pos = atom (symbol "n"); pronunciation = "z uu" }

abbrev pub two_lines : List Line
two_lines = line_of verb 22 ∷ line_of adjective 24 ∷ []

-- The entry for `lives`, between two for `live` and one that is behind them.
lookup_complex-Reads_example :
    Reads toy_compare "lives" nil 4 "eof" two_lines
      (line_of third 25)
      []
      (line_of last_entry 21 ∷ [])
      (lookup_complex toy_compare
        (compiled toy_compare "lives" nil 4 "eof" two_lines
          (line_of third 25)
          []
          (line_of last_entry 21 ∷ []))
        "lives"
        nil
        (bottom 4 97))
unfolding bl_lookup_cache
lookup_complex-Reads_example =
    lookup_complex-Reads toy_compare "lives" nil 4 "eof" two_lines (line_of third 25) []
      (line_of last_entry 21 ∷ []) (refl, (refl, tt)) refl tt (refl, tt)
      (omega arith, (omega arith, tt)) (inl refl) (bottom 4 97)
      (omega arith, omega arith, omega arith, omega arith)

-- An entry in a last line that is longer than all before it, for a word behind what is read at the end.
lost_last_line :
    lookup_complex toy_compare
      (record {
        blstart = 4;
        lines = line_of verb 22 ∷ line_of last_entry 60 ∷ [];
        end_word = "eof";
      })
      "zoo"
      nil
      (bottom 4 86)
    ≡ some (record { found = none; matched = []; index_cache = bottom 4 86 })
unfolding lookup_complex
lost_last_line = refl
