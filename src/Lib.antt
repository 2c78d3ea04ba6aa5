-- ===== src/Lib.antt =====
-- Festival, the speech synthesis system: a model of core components of the C++ program, with proofs.
-- Paths are from the repository's root.
--
-- The program turns text into utterances (src/arch/festival, src/modules/Text), gives words their
-- pronunciation (src/modules/Lexicon) in terms of phones (src/arch/festival/Phone.cc), and chooses
-- recorded units for the phones (src/modules/MultiSyn and others). The parts modelled here are those
-- that decide on symbols rather than on signals:
--
-- Lts: the letter-to-sound rules of src/modules/Lexicon/lts_rules.cc. Lts/Context is item_match and
--   context_match, Lts/Rules match_rule, rewrite, apply and check_alpha, Lts/Normalize the reading of
--   rules by the constructor of LTS_Ruleset, Lts/Registry lts_add_ruleset, lts_list, lts_apply_ruleset
--   and lts_in_alphabet. Lts/Language and Lts/Derivation say independently what a context stands for
--   and what applying rules means; the other children hold the proofs.
-- JoinCost: the cache of join costs, src/modules/MultiSyn/EST_JoinCostCache.cc and its header.
--   JoinCost/Cache is the class with its 32-bit arithmetic and an explicit block of bytes,
--   JoinCost/Compute is computeAndCache. JoinCost/Index is arithmetic on the places of pairs.
-- Backoff: backing off to another diphone, src/modules/MultiSyn/DiphoneBackoff.cc, with the loop in
--   getUnitSequence of src/modules/MultiSyn/DiphoneUnitVoice.cc that calls it (Backoff/Rules).
-- Phones: the phone sets of src/arch/festival/Phone.cc and src/include/Phone.h. Phones/Set is the two
--   classes and make_phoneset, Phones/State the list of sets and the current one, Phones/Classes the
--   questions ph_is_vowel, ph_sonority and so on. A pointer to a set is a place in a list of objects,
--   so that sharing shows.
-- Syllables: the syllabification of src/modules/Lexicon/lex_aux.cc, which asks Phones/Classes about its
--   phones (Syllables/Split).
-- Unisyn: the syllable structure of words, src/modules/UniSyn_phonology/syllabify.cc. Unisyn/Onset is
--   legal_c1, legal_c2, legal_c3 and make_onset, Unisyn/Word the loop of syllabify_word and make_coda.
-- Lexicon: lexicons, src/modules/Lexicon/lexicon.cc and src/include/lexicon.h. Lexicon/Entries is
--   match_features, lookup_addenda and the last loop of bl_find_actual_entry over the entries left in
--   the file, where the first one is read without a test for the end of the file, Lexicon/File the
--   compiled file and the binary search in it (bl_bsearch, lookup_complex), Lexicon/Lookup lookup,
--   lookup_all, in_lexicon and lookup_lts with the opening of the file, Lexicon/Writing the sorting
--   and writing of the file in src/modules/Lexicon/complex.cc, Lexicon/Cache the index cache,
--   Lexicon/Registry the list of lexicons and the commands lex_create_lex, lex_select_lex,
--   lex_add_entry and those that set a field of the current lexicon.
-- Builtin: the builtin feature functions of src/modules/base/ff.cc. Builtin/Items is the interface to the
--   items of an utterance, Builtin/Sizes, Breaks, Counts and Times the functions, which ask Phones/Classes
--   about phones; the other children hold the proofs.
-- TargetCost: the costs of a unit for a target, src/modules/MultiSyn/EST_TargetCost.cc, over the same
--   items. TargetCost/Contexts is what is asked of a segment, TargetCost/Costs the costs and
--   EST_DefaultTargetCost; scores are kept as whole numbers of halves, with the division left out.
--   TargetCost/Flat is EST_FlatTargetCost.cc: Flat/Packing is flatpack, with the hash of simple_phone in
--   Flat/Numbers, and Flat/Costs the costs over packed numbers.
-- Frames: the choice of pitch marks for the phones of the diphone synthesizer,
--   src/modules/diphone/di_select.cc (Frames/Select). The parallel arrays are a list of records.
-- Tokens: the words of tokens, src/modules/Text/token.cc. Tokens/Words is num_2_words, Tokens/Spelling the
--   other functions on numbers, digits and letters, Tokens/Expanding builtin_word_it and word_it,
--   Tokens/Stream FT_English_Token_Utt and FT_Any_Token_Utt. Tokens/Reading says independently what the
--   words of a number stand for.
-- Base: tests on native numbers and texts, lists over native numbers, C integers, results with errors.
--
-- Conventions: a call that festival_error ends, or that C++ leaves undefined, is an `err` of the
-- component's error type. A LISP list of symbols is a list of texts, a LISP association list, and a
-- key-value list of the EST library, is a list of pairs. Functions of the EST and SIOD libraries that
-- cannot be written so are parameters: the text of NIL, symbolexplode, the joining and cutting of
-- diphone names, the float costs, fcompare, qsort and
-- strcmp, the operations of EST_String and EST_Regex on tokens, the
-- number behind the underscore of an id, the items of an utterance with their relations.
--
-- Fuel: context_match backtracks and is given one more than the lengths of the symbols and the
-- context together; apply is given one more than the length of the word; the back-off loop has fuel
-- as an argument; bl_bsearch is given two more than the bytes between its two places, and the loop
-- that goes back from an entry one more than its place; num_2_words calls itself at most five deep,
-- except for the least integer of 32 bits, for which it does not return, and word_it is given one
-- more than the length of the text. `none` and `no_return` stand for a call that does not return.
--
-- Not modelled: input and output, signal processing, the Scheme interpreter, the training data and the
-- Scheme code under lib, and the modules listed as not modelled in the project's manifest.
pub mod Base
pub mod Lts
pub mod JoinCost
pub mod Backoff
pub mod Phones
pub mod Syllables
pub mod Unisyn
pub mod Lexicon
pub mod Tokens
pub mod Builtin
pub mod TargetCost
pub mod Frames
