-- ===== src/Lexicon/LookupTests.antt =====
-- The theorems on looking up at concrete lexicons with a compiled file.
use speech_synthesis_system.Base.{
  arith, String, str_eq, ◌≡◌, inl, refl, Bool, true, false, none, some, ok, err, List, [], ◌∷◌,
  ◌++◌,
}
use speech_synthesis_system.Lexicon.Entries.{
  nil, symbol, Features, atom, match_features, bl_match_entry,
}
use speech_synthesis_system.Lexicon.Cache.{bottom, bl_lookup_cache}
use speech_synthesis_system.Lexicon.File.{Line, Compiled, line_entries, lookup_complex}
use speech_synthesis_system.Lexicon.Registry.{Lexicon, add_addenda}
use speech_synthesis_system.Lexicon.Sound.{Returns, IsOfFile, lookup_complex-Returns}
use speech_synthesis_system.Lexicon.Lookup.{
  magic, not_in_lexicon, Memory, Calls, map_pos, binlex_init, lookup, lookup_all,
}
use speech_synthesis_system.Lexicon.Listed.{entries_for, lookup_all-entries_for}
use speech_synthesis_system.Lexicon.Preferred.{lookup-add_addenda}
use speech_synthesis_system.Lexicon.Tests.{
  toy_compare, verb, adjective, third, line_of, last_entry, two_lines,
}

abbrev toy_same : Features → Features → Bool
toy_same nil nil = true
toy_same (atom (symbol a)) (atom (symbol b)) = str_eq a b
toy_same a b = false

abbrev toy_lines : List Line
toy_lines = two_lines ++ (line_of third 25 ∷ (line_of last_entry 21 ∷ []))

abbrev toy_file : Compiled
toy_file = record { blstart = 4; lines = toy_lines; end_word = "eof" }

abbrev toy_calls : Calls String
toy_calls = record {
  fcompare = toy_compare;
  contents = λ name. magic "MNCL" none toy_file;
  same = toy_same;
  lts = λ word features name. err not_in_lexicon;
  leval = λ name word features. err not_in_lexicon;
  posmap_of = λ value. [];
  pre_hooks_of = λ value. none;
  post_hooks_of = λ value. none;
}

abbrev toy_lexicon : Lexicon String
toy_lexicon = record {
  name = "english";
  ps_name = "";
  addenda = third ∷ [];
  posmap = "";
  bl_filename = "english.out";
  binlexfp = false;
  lts_method = "";
  lts_ruleset = "";
  pre_hooks = "";
  post_hooks = "";
}

abbrev fresh : Memory
fresh = record {
  binlexfp = none;
  index_cache = bottom 0 0;
  comp_num_entries = none;
  matched_lexical_entries = verb ∷ adjective ∷ [];
}

abbrev after_opening : Memory
after_opening = record fresh { binlexfp = some toy_file; index_cache = bottom 4 97 }

-- A file whose words stand in the wrong order.
lookup_complex-Returns_example :
    Returns toy_compare
      (record { blstart = 4; lines = line_of last_entry 21 ∷ two_lines; end_word = "eof" })
      "live"
      nil
      (IsOfFile toy_compare
        (record { blstart = 4; lines = line_of last_entry 21 ∷ two_lines; end_word = "eof" })
        "live"
        nil)
      (lookup_complex toy_compare
        (record { blstart = 4; lines = line_of last_entry 21 ∷ two_lines; end_word = "eof" })
        "live"
        nil
        (bottom 4 72))
lookup_complex-Returns_example =
    lookup_complex-Returns toy_compare
      (record { blstart = 4; lines = line_of last_entry 21 ∷ two_lines; end_word = "eof" }) "live"
      nil (bottom 4 72)

lookup_all-entries_for_example :
    (m' : Memory) × (lookup_all toy_calls toy_lexicon "lives" fresh
      ≡ ok (
        entries_for toy_compare "lives" (third ∷ [])
            ++ entries_for toy_compare "lives" (line_entries toy_lines),
        m',
      ))
unfolding binlex_init bl_lookup_cache match_features
lookup_all-entries_for_example =
    lookup_all-entries_for toy_calls toy_lexicon "lives" fresh after_opening 4 "eof" two_lines
      (line_of third 25) [] (line_of last_entry 21 ∷ []) refl refl (refl, (refl, tt)) (refl, tt)
      (refl, tt) (refl, tt) (omega arith, (omega arith, tt)) (inl refl)
      (omega arith, omega arith, omega arith, omega arith)

lookup-add_addenda_example :
    lookup toy_calls (add_addenda verb toy_lexicon) "live" (atom (symbol "v")) fresh
    ≡ ok (verb, fresh)
unfolding map_pos bl_match_entry match_features
lookup-add_addenda_example =
    lookup-add_addenda toy_calls toy_lexicon verb "live" "live" (atom (symbol "v"))
      (atom (symbol "v")) fresh refl refl refl refl
