-- ===== src/Lexicon/Preferred.antt =====
-- What `lookup` of lexicon.cc takes from the addenda stands there after `add_addenda`.
use speech_synthesis_system.Base.{String, ◌≡◌, refl, Bool, true, false, ◌||◌, some, ok}
use speech_synthesis_system.Lexicon.Entries.{
  zero_sign, Features, Entry, match_features, bl_match_entry, lookup_addenda,
}
use speech_synthesis_system.Lexicon.Registry.{Lexicon, add_addenda}
use speech_synthesis_system.Lexicon.Sharing.{added_found}
use speech_synthesis_system.Lexicon.Lookup.{
  Memory, Calls, hooked, after, is_nil, find_entry, map_pos, lookup,
}

either_agrees : (a b c : Bool) → a || c ≡ true → a || b || c ≡ true
either_agrees true b c h = refl
either_agrees false true c h = refl
either_agrees false false c h = h

module _ {Lisp : Type 0} (calls : Calls Lisp) (l : Lexicon Lisp) where
  find_entry-addenda :
      (sword : String) (mapped : Features) (m : Memory) (e : Entry)
      → lookup_addenda calls.fcompare sword mapped l.addenda ≡ some e
      → is_nil mapped || is_nil e.pos || calls.same mapped e.pos ≡ true
      → find_entry calls l sword mapped m ≡ ok (e, m)
  unfolding find_entry
  find_entry-addenda sword mapped m e found agrees = rw (found, find_entry, agrees) refl

  lookup-find_entry :
      (word sword : String) (features tags : Features) (m : Memory) (e : Entry)
      → hooked (calls.pre_hooks_of l.pre_hooks) word features ≡ (sword, tags)
      → find_entry calls l sword (map_pos (calls.posmap_of l.posmap) tags) m ≡ ok (e, m)
      → lookup calls l word features m ≡ ok (after (calls.post_hooks_of l.post_hooks) e, m)
  unfolding lookup
  lookup-find_entry word sword features tags m e pre found = rw (pre, found) refl

module _ {Lisp : Type 0} (calls : Calls Lisp) (l : Lexicon Lisp) where
  -- After an entry is added to the addenda, looking up its word, as the hooks before the lookup give it,
  -- with features that match its own and are NIL or are the same as its own gives the entry, as the hooks
  -- after the lookup change it, and leaves the compiled file alone.
  pub lookup-add_addenda :
      (e : Entry) (word sword : String) (features tags : Features) (m : Memory)
      → hooked (calls.pre_hooks_of l.pre_hooks) word features ≡ (sword, tags)
      → bl_match_entry calls.fcompare e sword ≡ zero_sign
      → match_features (map_pos (calls.posmap_of l.posmap) tags) e.pos ≡ true
      → is_nil (map_pos (calls.posmap_of l.posmap) tags)
          || calls.same (map_pos (calls.posmap_of l.posmap) tags) e.pos
        ≡ true
      → lookup calls (add_addenda e l) word features m
        ≡ ok (after (calls.post_hooks_of l.post_hooks) e, m)
  unfolding add_addenda
  lookup-add_addenda e word sword features tags m pre here fits agrees =
      let mapped : Features = map_pos (calls.posmap_of l.posmap) tags in
      lookup-find_entry calls (add_addenda e l) word sword features tags m e pre (
        find_entry-addenda calls (add_addenda e l) sword mapped m e
          (added_found calls.fcompare sword mapped e l.addenda here fits)
          (either_agrees (is_nil mapped) (is_nil e.pos) (calls.same mapped e.pos) agrees))
