-- ===== src/Lexicon/Region.antt =====
-- Places in a compiled lexicon and the line that begins behind each: what one reading tells of a word.
use speech_synthesis_system.Base.{
  ℕ, ◌+◌, ◌≤◌, ◌<◌, ◌≡◌, inl, inr, refl, ap, ◌∙◌, List, [], ◌∷◌, ◌++◌, ltb, arith, Bool-cases, All,
}
use speech_synthesis_system.Lexicon.File.{Line, lines_after}

-- The bytes of the lines.
abbrev pub widths : List Line → ℕ
widths [] = 0
widths (l ∷ ls) = l.width + widths ls

-- Where the last of these lines begins, or would begin.
abbrev pub last_start : ℕ → List Line → ℕ
last_start at [] = at
last_start at (l ∷ []) = at
last_start at (l ∷ m ∷ ls) = last_start (at + l.width) (m ∷ ls)

pub last_start-ge : (at : ℕ) (ls : List Line) → at ≤ last_start at ls
last_start-ge at [] = omega arith
last_start-ge at (l ∷ []) = omega arith
last_start-ge at (l ∷ m ∷ ls) = omega (arith, last_start-ge (at + l.width) (m ∷ ls))

-- Behind these lines, or in the last of them.
abbrev pub IsPast : ℕ → List Line → ℕ → Type 0
IsPast at [] pos = Unit
IsPast at (l ∷ ls) pos = last_start at (l ∷ ls) ≤ pos

-- A place before the beginning of the last line of `front` leads to a line of `front`.
pub lines_after-front :
    {P : Line → Type 0} (at : ℕ) (l : Line) (front rest : List Line) (pos : ℕ)
    → All P (l ∷ front)
    → pos < last_start at (l ∷ front)
    → (m : Line) × (ms : List Line) × (lines_after at (l ∷ front ++ rest) pos ≡ m ∷ ms) × P m
unfolding lines_after
lines_after-front at l [] rest pos p h = (l, rest, ground arith, p.0)
lines_after-front at l (k ∷ front) rest pos p h = elim (Bool-cases (ltb pos at)) [
  | inl e ↦ rw e (l, k ∷ front ++ rest, refl, p.0)
  | inr e ↦ rw e (lines_after-front (at + l.width) k front rest pos p.1 h)
]

-- A place in the last line of `front` leads to the first line of `rest`.
pub lines_after-rest :
    (at : ℕ) (front : List Line) (t : Line) (rest : List Line) (pos : ℕ)
    → IsPast at front pos
    → pos < at + widths front
    → lines_after at (front ++ t ∷ rest) pos ≡ t ∷ rest
unfolding lines_after
lines_after-rest at [] t rest pos past h = ground arith
lines_after-rest at (l ∷ []) t rest pos past h = ground arith
lines_after-rest at (l ∷ k ∷ front) t rest pos past h =
    let same = lines_after-rest (at + l.width) (k ∷ front) t rest pos past (omega (arith, h)) in
    ground (arith, same, last_start-ge (at + l.width) (k ∷ front))

-- A place behind these lines leads to those behind them.
pub lines_after-behind :
    (at : ℕ) (front rest : List Line) (pos : ℕ)
    → at + widths front ≤ pos
    → lines_after at (front ++ rest) pos ≡ lines_after (at + widths front) rest pos
unfolding lines_after
lines_after-behind at [] rest pos h = ap (λ a. lines_after a rest pos) (omega arith)
lines_after-behind at (l ∷ front) rest pos h =
    let same = lines_after-behind (at + l.width) front rest pos (omega (arith, h)) in
    let there : at + l.width + widths front ≡ at + (l.width + widths front) = omega arith in
    elim (Bool-cases (ltb pos at)) [
      | inl e ↦ absurd (ground (arith, e))
      | inr e ↦ rw e (same ∙ ap (λ a. lines_after a rest pos) there)
    ]

pub lines_after-All :
    (P : Line → Type 0) (at : ℕ) (ls : List Line) (pos : ℕ)
    → All P ls
    → All P (lines_after at ls pos)
unfolding lines_after
lines_after-All P at [] pos h = tt
lines_after-All P at (l ∷ ls) pos h = elim (Bool-cases (ltb pos at)) [
  | inl e ↦ rw e h
  | inr e ↦ rw e (lines_after-All P (at + l.width) ls pos h.1)
]

-- The end of the file is read only from within the last line or behind it.
pub last_start-le :
    (at : ℕ) (t : Line) (ls : List Line) (pos : ℕ)
    → lines_after at (t ∷ ls) pos ≡ []
    → last_start at (t ∷ ls) ≤ pos
unfolding lines_after
last_start-le at t [] pos h = ground arith
last_start-le at t (l ∷ ls) pos h = elim (Bool-cases (ltb pos at)) [
  | inl e ↦ absurd (cc (rw e at h))
  | inr e ↦ last_start-le (at + t.width) l ls pos (rw e at h)
]

-- The last of these lines, where no line is shorter than nine bytes, is not.
pub last_start-wide :
    (at : ℕ) (l : Line) (ls : List Line)
    → All (λ m. 9 ≤ m.width) (l ∷ ls)
    → last_start at (l ∷ ls) + 9 ≤ at + widths (l ∷ ls)
last_start-wide at l [] h = omega (arith, h.0)
last_start-wide at l (m ∷ ls) h = omega (arith, last_start-wide (at + l.width) m ls h.1)
