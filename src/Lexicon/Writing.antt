-- ===== src/Lexicon/Writing.antt =====
-- The writing of a compiled lexicon, in complex.cc: `entry_compare`, and the part of `lexicon_compile` behind
-- the reading of the entries.
use speech_synthesis_system.Base.{ℕ, ◌+◌, String, List, [], ◌∷◌}
use speech_synthesis_system.Lexicon.Entries.{Sign, negative, zero_sign, positive, Features, Entry}
use speech_synthesis_system.Lexicon.File.{Line, Compiled}

-- What is called: `fcompare` and `strcmp`, the printed forms of features and entries and the bytes of a
-- text, `qsort`, and what is read at the end of a file.
pub record Writer : Type 0 where
  pub fcompare : String → String → Sign
  pub strcmp : String → String → Sign
  pub pos_text : Features → String
  pub entry_text : Entry → String
  pub size : String → ℕ
  pub qsort : (Entry → Entry → Sign) → List Entry → List Entry
  pub end_word : String

abbrev pub or_then : Sign → Sign → Sign
or_then negative next = negative
or_then zero_sign next = next
or_then positive next = positive

module _ (w : Writer) where
  unfoldable pub entry_compare : Entry → Entry → Sign
  entry_compare le1 le2 = or_then (w.fcompare le1.headword le2.headword) (
      or_then (w.strcmp (w.pos_text le1.pos) (w.pos_text le2.pos)) (
        or_then (w.strcmp le1.headword le2.headword)
          (w.strcmp (w.entry_text le1) (w.entry_text le2))))

  unfoldable pub written : List Entry → List Line
  written [] = []
  written (e ∷ l) = record { entry = e; width = w.size (w.entry_text e) + 1 } ∷ written l

  -- The file behind its first four bytes.
  unfoldable pub write_sorted : List Entry → Compiled
  unfolding entry_compare written
  write_sorted entries = record {
    blstart = 4;
    lines = written (w.qsort entry_compare entries);
    end_word = w.end_word;
  }
