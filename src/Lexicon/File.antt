-- ===== src/Lexicon/File.antt =====
-- The compiled file of a lexicon and the search in it, in lexicon.cc: `bl_find_next_entry`,
-- `bl_find_actual_entry`, `bl_bsearch` and `lookup_complex`.
use speech_synthesis_system.Base.{
  ℕ, zero, suc, ◌+◌, ◌-◌, ◌/◌, String, ◌&&◌, Option, none, some, List, [], ◌∷◌, ltb, ◌==◌,
  if◌then◌else◌,
}
use speech_synthesis_system.Lexicon.Entries.{
  Sign, negative, zero_sign, positive, Features, nil, Entry, find_actual_entry,
}
use speech_synthesis_system.Lexicon.Cache.{Index, bl_lookup_cache, add_to_cache}

-- An entry as it is written, with the bytes of its line, the newline among them.
pub record Line : Type 0 where
  pub entry : Entry
  pub width : ℕ

-- `blstart` is the place of the newline before the first line. `end_word` is what `get_c_string(car(e))`
-- gives of what is read at the end of the file.
pub record Compiled : Type 0 where
  pub blstart : ℕ
  pub lines : List Line
  pub end_word : String

abbrev pub line_entries : List Line → List Entry
line_entries [] = []
line_entries (l ∷ ls) = l.entry ∷ line_entries ls

-- The lines that begin behind `pos`, where the first one begins at `at`.
unfoldable pub lines_after : ℕ → List Line → ℕ → List Line
lines_after at [] pos = []
lines_after at (l ∷ ls) pos =
    let rest = lines_after (at + l.width) ls pos in if ltb pos at then l ∷ ls else rest

-- What is read at the end of the file, as an entry: it has a head only.
abbrev pub end_entry : Compiled → Entry
end_entry file = record { headword = file.end_word; pos = nil; pronunciation = "" }

-- The line that is read, and those behind it.
unfoldable pub bl_find_next_entry : Compiled → ℕ → List Line
unfolding lines_after
bl_find_next_entry file pos = lines_after (file.blstart + 1) file.lines pos

abbrev pub head_of : Compiled → List Line → String
head_of file [] = file.end_word
head_of file (l ∷ ls) = l.entry.headword

abbrev pub tail_of : List Line → List Line
tail_of [] = []
tail_of (l ∷ ls) = ls

-- What a search leaves: the entry, `matched_lexical_entries` and the index cache.
pub record Answer : Type 0 where
  pub found : Option Entry
  pub matched : List Entry
  pub index_cache : Index

module _ (fcompare : String → String → Sign) (file : Compiled) (word : String)
    (features : Features) where
  -- The first loop of `bl_find_actual_entry`: the lines that the second one reads.
  unfoldable pub back_up : ℕ → ℕ → Option (List Line)
  unfolding bl_find_next_entry
  back_up zero pos = none
  back_up (suc f) pos =
      let read = bl_find_next_entry file (pos - 40) in
      let again = back_up f (pos - 40) in
      if ltb pos (file.blstart + 40)
      then some file.lines
      else elim (fcompare word (head_of file read)) [
        | zero_sign ↦ again
        | negative ↦ some (tail_of read)
        | positive ↦ some (tail_of read)
      ]

  unfoldable pub answer_from : Index → Option (List Line) → Option Answer
  unfolding find_actual_entry
  answer_from cache none = none
  answer_from cache (some lines) =
      let (found, matched) =
        find_actual_entry fcompare word features (end_entry file) (line_entries lines) in
      some (record { found = found; matched = matched; index_cache = cache })

  unfoldable pub bl_find_actual_entry : Index → ℕ → Option Answer
  unfolding back_up answer_from
  bl_find_actual_entry cache pos = answer_from cache (back_up (suc pos) pos)

  abbrev pub not_found : Index → Option Answer
  not_found cache = some (record { found = none; matched = []; index_cache = cache })

  -- The index cache is divided where the search is neither deep nor near its end.
  unfoldable pub divide_cache : Index → String → ℕ → ℕ → ℕ → ℕ → Index
  unfolding add_to_cache
  divide_cache cache closest start mid end depth =
      if ltb depth 8 && ltb 256 (end - start)
      then add_to_cache fcompare cache closest start mid end
      else cache

  -- The part of `bl_bsearch` behind the choice of `mid` and `end`, with its two recursive calls.
  unfoldable pub probe : (Index → ℕ → ℕ → ℕ → Option Answer) → Index → ℕ → ℕ → ℕ → ℕ → Option Answer
  unfolding bl_find_next_entry bl_find_actual_entry divide_cache
  probe search cache start mid end depth =
      let closest = head_of file (bl_find_next_entry file mid) in
      let cache' = divide_cache cache closest start mid end depth in
      let here = bl_find_actual_entry cache' mid in
      let before = search cache' start mid (depth + 1) in
      let behind = search cache' mid end (depth + 1) in
      elim (fcompare word closest) [ zero_sign ↦ here | negative ↦ before | positive ↦ behind ]

  -- `none` is that the fuel ran out.
  unfoldable pub bl_bsearch : ℕ → Index → ℕ → ℕ → ℕ → Option Answer
  unfolding probe
  bl_bsearch zero cache start end depth = none
  bl_bsearch (suc f) cache start end depth =
      let first = probe (bl_bsearch f) cache start start start depth in
      let middle = probe (bl_bsearch f) cache start (start + (end - start) / 2) end depth in
      if start == end
      then not_found cache
      else if ltb (end - start) 10
      then (if start == file.blstart then first else not_found cache)
      else middle

  -- `lookup_complex` with an open file.
  unfoldable pub lookup_complex : Index → Option Answer
  unfolding bl_lookup_cache bl_bsearch
  lookup_complex cache =
      let ((start, end), depth) = bl_lookup_cache fcompare cache word 0 in
      bl_bsearch (suc (suc (end - start))) cache start end depth
