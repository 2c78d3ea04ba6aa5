-- ===== src/Lexicon/Cache.antt =====
-- The index cache of lexicon.cc: `bl_lookup_cache` and `add_to_cache`.
use speech_synthesis_system.Base.{ℕ, ◌+◌, ◌≤◌, String, ◌≡◌, Bool, true, false, if◌then◌else◌, arith}
use speech_synthesis_system.Lexicon.Entries.{Sign, negative, zero_sign, positive}

-- A pair of places in the file, and where it has been divided the word there and the two parts.
pub data Index : Type 0 where
  bottom : ℕ → ℕ → Index
  divided : ℕ → ℕ → String → Index → Index → Index

module _ (fcompare : String → String → Sign) where
  -- `start` and `end`, and `depth` after the steps down.
  unfoldable pub bl_lookup_cache : Index → String → ℕ → (ℕ × ℕ) × ℕ
  bl_lookup_cache (bottom start end) word depth = ((start, end), depth)
  bl_lookup_cache (divided start end key left right) word depth =
      let before = bl_lookup_cache left word (depth + 1) in
      let behind = bl_lookup_cache right word (depth + 1) in
      elim (fcompare word key) [
        | negative ↦ before
        | zero_sign ↦ ((start, end), depth)
        | positive ↦ behind
      ]

  unfoldable pub add_to_cache : Index → String → ℕ → ℕ → ℕ → Index
  add_to_cache (bottom s e) word start mid end =
      divided s e word (bottom start mid) (bottom mid end)
  add_to_cache (divided s e key left right) word start mid end =
      let before = add_to_cache left word start mid end in
      let behind = add_to_cache right word start mid end in
      elim (fcompare word key) [
        | negative ↦ divided s e key before right
        | zero_sign ↦ divided s e key left right
        | positive ↦ divided s e key left behind
      ]

  -- Every pair of places lies between these.
  abbrev pub IsWithin : ℕ → ℕ → Index → Type 0
  IsWithin low high (bottom s e) = (low ≤ s) × ((s ≤ e) × (e ≤ high))
  IsWithin low high (divided s e key left right) =
      ((low ≤ s) × ((s ≤ e) × (e ≤ high))) × (IsWithin low high left × IsWithin low high right)

  -- Both words reach the same end of the index, and neither is at a division on the way.
  unfoldable pub meet : Index → String → String → Bool
  meet (bottom s e) word other = true
  meet (divided s e key left right) word other =
      let before = meet left word other in
      let behind = meet right word other in
      elim (fcompare word key) [
        | negative ↦ elim (fcompare other key) [
          | negative ↦ before
          | zero_sign ↦ false
          | positive ↦ false
        ]
        | zero_sign ↦ false
        | positive ↦ elim (fcompare other key) [
          | negative ↦ false
          | zero_sign ↦ false
          | positive ↦ behind
        ]
      ]

  add_to_cache-IsWithin :
      (low high : ℕ) (c : Index) (word : String) (start mid end : ℕ)
      → IsWithin low high c
      → low ≤ start
      → start ≤ mid
      → mid ≤ end
      → end ≤ high
      → IsWithin low high (add_to_cache c word start mid end)
  unfolding add_to_cache
  add_to_cache-IsWithin low high (bottom s e) word start mid end w a b c d =
      (w, ((a, (b, omega (arith, c, d))), (omega (arith, a, b), (c, d))))
  add_to_cache-IsWithin low high (divided s e key left right) word start mid end w a b c d =
      let before = add_to_cache-IsWithin low high left word start mid end w.1.0 a b c d in
      let behind = add_to_cache-IsWithin low high right word start mid end w.1.1 a b c d in
      elim (fcompare word key)
        as (λ x. IsWithin low high (elim x [
          | negative ↦ divided s e key (add_to_cache left word start mid end) right
          | zero_sign ↦ divided s e key left right
          | positive ↦ divided s e key left (add_to_cache right word start mid end)
        ])) [
          | negative ↦ (w.0, (before, w.1.1))
          | zero_sign ↦ w
          | positive ↦ (w.0, (w.1.0, behind))
        ]

  abbrev pub IsBetween : ℕ → ℕ → (ℕ × ℕ) × ℕ → Type 0
  IsBetween low high r = (low ≤ r.0.0) × ((r.0.0 ≤ r.0.1) × (r.0.1 ≤ high))

  bl_lookup_cache-IsBetween :
      (low high : ℕ) (c : Index) (word : String) (depth : ℕ)
      → IsWithin low high c
      → IsBetween low high (bl_lookup_cache c word depth)
  unfolding bl_lookup_cache
  bl_lookup_cache-IsBetween low high (bottom s e) word depth w = w
  bl_lookup_cache-IsBetween low high (divided s e key left right) word depth w =
      let before = bl_lookup_cache-IsBetween low high left word (depth + 1) w.1.0 in
      let behind = bl_lookup_cache-IsBetween low high right word (depth + 1) w.1.1 in
      elim (fcompare word key)
        as (λ x. IsBetween low high (elim x [
          | negative ↦ bl_lookup_cache left word (depth + 1)
          | zero_sign ↦ ((s, e), depth)
          | positive ↦ bl_lookup_cache right word (depth + 1)
        ])) [ negative ↦ before | zero_sign ↦ w.0 | positive ↦ behind ]

  -- An index whose pairs lie in the file, to which a search adds a division of a pair in the file, still
  -- gives every word a pair of places in order that lies in the file.
  pub bl_lookup_cache-add_to_cache :
      (low high : ℕ) (c : Index) (word : String) (start mid end : ℕ)
      → IsWithin low high c
      → low ≤ start
      → start ≤ mid
      → mid ≤ end
      → end ≤ high
      → IsWithin low high (add_to_cache c word start mid end)
        × ((other : String) (depth : ℕ)
            → IsBetween low high (bl_lookup_cache (add_to_cache c word start mid end) other depth))
  bl_lookup_cache-add_to_cache low high c word start mid end w a b c' d =
      let kept = add_to_cache-IsWithin low high c word start mid end w a b c' d in
      (kept, (λ other depth. bl_lookup_cache-IsBetween low high _ other depth kept))

  -- The pair of a word that has come to a new division.
  abbrev pub narrowed : Sign → ℕ × ℕ → ℕ → ℕ → ℕ → ℕ × ℕ
  narrowed negative own start mid end = (start, mid)
  narrowed zero_sign own start mid end = own
  narrowed positive own start mid end = (mid, end)

  -- After a division is added at a word, a word that meets it gets the part on its side, or at the word
  -- itself the undivided pair, and every other word gets the pair that it got.
  pub bl_lookup_cache-narrowed :
      (c : Index) (word other : String) (start mid end depth : ℕ)
      → (bl_lookup_cache (add_to_cache c word start mid end) other depth).0 ≡ (
          if meet c word other
          then narrowed (fcompare other word) (bl_lookup_cache c other depth).0 start mid end
          else (bl_lookup_cache c other depth).0)
  unfolding bl_lookup_cache add_to_cache meet
  bl_lookup_cache-narrowed (bottom s e) word other start mid end depth = ground arith
  bl_lookup_cache-narrowed (divided s e key left right) word other start mid end depth = ground (
    arith,
    bl_lookup_cache-narrowed left word other start mid end (depth + 1),
    bl_lookup_cache-narrowed right word other start mid end (depth + 1),
  )
