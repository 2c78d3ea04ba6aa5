-- ===== src/Frames/Marks.antt =====
-- The marks that `bresenham_mod` chooses for one phone.
use native.Mathlib.Nat.{mul-suc, suc-mul, le_of_mul-le-mul_left, lt_of_mul-lt-mul_left}
use speech_synthesis_system.Base.{
  ℕ, zero, suc, ◌+◌, ◌-◌, ◌*◌, ◌≤◌, ◌<◌, ◌≡◌, ◌⊎◌, ℤ, pos, negsuc, refl, ap, inl, inr, List, [],
  ◌∷◌, length, All, ltb, leb, arith, Bool-cases,
}
use speech_synthesis_system.Frames.Select.{mark_before, fewer_marks, more_marks, marks_for}

-- The order of the C integers.
abbrev pub IsAtMost : ℤ → ℤ → Type 0
IsAtMost (pos a) (pos b) = a ≤ b
IsAtMost (pos a) (negsuc b) = ⊥
IsAtMost (negsuc a) (pos b) = Unit
IsAtMost (negsuc a) (negsuc b) = b ≤ a

-- No mark is before `b` or before the mark in front of it.
abbrev pub IsSortedFrom : ℤ → List ℤ → Type 0
IsSortedFrom b [] = Unit
IsSortedFrom b (m ∷ ms) = IsAtMost b m × IsSortedFrom m ms

-- One of the marks 0, ..., giv - 1.
abbrev pub IsGiven : ℕ → ℤ → Type 0
IsGiven giv (pos m) = m < giv
IsGiven giv (negsuc m) = ⊥

mark_before-pos : (i : ℕ) → 1 ≤ i → mark_before i ≡ pos (i - 1)
mark_before-pos zero h = absurd (omega (arith, h))
mark_before-pos (suc i) h = ap pos (omega arith)

-- There is no mark in the first round.
not_first : (x y i e : ℕ) → x < y → (1 ≤ i) ⊎ (e ≡ 0) → y ≤ e + x → 1 ≤ i
not_first x y i e few (inl some_rounds) hit = some_rounds
not_first x y i e few (inr no_error) hit = absurd (omega (arith, few, no_error, hit))

-- What is left of the error when the loop has made its marks.
fewer_marks-length :
    (x y n i e : ℕ)
    → x < y
    → e < y
    → (left : ℕ) × (left < y) × (y * length (fewer_marks x y n i e) + left ≡ e + n * x)
unfolding fewer_marks
fewer_marks-length x y zero i e few small = (e, small, omega arith)
fewer_marks-length x y (suc n) i e few small = elim (Bool-cases (leb y (e + x))) [
  | inl hit ↦
      let reached : y ≤ e + x = ground (arith, hit) in
      let (left, less, sums) = fewer_marks-length x y n (i + 1) (e + x - y) few (omega arith) in
      rw (hit, fewer_marks)
        (
          left,
          less,
          omega (
            arith,
            sums,
            suc-mul n x,
            mul-suc y (length (fewer_marks x y n (i + 1) (e + x - y))),
          ),
        )
  | inr miss ↦
      let before : e + x < y = ground (arith, miss) in
      let (left, less, sums) = fewer_marks-length x y n (i + 1) (e + x) few before in
      rw (miss, fewer_marks) (left, less, omega (arith, sums, suc-mul n x))
]

fewer_marks-IsSortedFrom :
    (x y n i e b : ℕ)
    → x < y
    → (1 ≤ i) ⊎ (e ≡ 0)
    → b ≤ i - 1
    → IsSortedFrom (pos b) (fewer_marks x y n i e)
unfolding fewer_marks
fewer_marks-IsSortedFrom x y zero i e b few start h = tt
fewer_marks-IsSortedFrom x y (suc n) i e b few start h = elim (Bool-cases (leb y (e + x))) [
  | inl hit ↦
      let later = not_first x y i e few start (ground (arith, hit)) in
      rw (hit, fewer_marks, mark_before-pos i later)
        (
          h,
          fewer_marks-IsSortedFrom x y n (i + 1) (e + x - y) (i - 1) few (inl (omega arith))
              (omega arith),
        )
  | inr miss ↦
      rw (miss, fewer_marks)
        (fewer_marks-IsSortedFrom x y n (i + 1) (e + x) b few (inl (omega arith))
          (omega (arith, h)))
]

fewer_marks-All :
    (x y n i e : ℕ)
    → x < y
    → (1 ≤ i) ⊎ (e ≡ 0)
    → i + n ≤ y
    → All (IsGiven y) (fewer_marks x y n i e)
unfolding fewer_marks
fewer_marks-All x y zero i e few start h = tt
fewer_marks-All x y (suc n) i e few start h = elim (Bool-cases (leb y (e + x))) [
  | inl hit ↦
      let later = not_first x y i e few start (ground (arith, hit)) in
      rw (hit, fewer_marks, mark_before-pos i later)
        (
          omega (arith, h),
          fewer_marks-All x y n (i + 1) (e + x - y) few (inl (omega arith)) (omega (arith, h)),
        )
  | inr miss ↦
      rw (miss, fewer_marks)
        (fewer_marks-All x y n (i + 1) (e + x) few (inl (omega arith)) (omega (arith, h)))
]

more_marks-length : (x y n mark e : ℕ) → length (more_marks x y n mark e) ≡ n
unfolding more_marks
more_marks-length x y zero mark e = refl
more_marks-length x y (suc n) mark e = elim (Bool-cases (ltb x (e + y))) [
  | inl hit ↦ rw (hit, more_marks) (ap suc (more_marks-length x y n (mark + 1) (e + y - x)))
  | inr miss ↦ rw (miss, more_marks) (ap suc (more_marks-length x y n mark (e + y)))
]

more_marks-IsSortedFrom :
    (x y n mark e b : ℕ) → b ≤ mark → IsSortedFrom (pos b) (more_marks x y n mark e)
unfolding more_marks
more_marks-IsSortedFrom x y zero mark e b h = tt
more_marks-IsSortedFrom x y (suc n) mark e b h = elim (Bool-cases (ltb x (e + y))) [
  | inl hit ↦
      rw (hit, more_marks)
        (h, more_marks-IsSortedFrom x y n (mark + 1) (e + y - x) mark (omega arith))
  | inr miss ↦
      rw (miss, more_marks) (h, more_marks-IsSortedFrom x y n mark (e + y) mark (omega arith))
]

-- The mark, the error and the rounds that are left make up the marks given.
more_marks-All :
    (x y n mark e : ℕ)
    → 1 ≤ y
    → y ≤ x
    → e ≤ x
    → x * mark + e + n * y ≡ x * y
    → All (IsGiven y) (more_marks x y n mark e)
unfolding more_marks
more_marks-All x y zero mark e some_given enough small sums = tt
more_marks-All x y (suc n) mark e some_given enough small sums =
    let inside : mark < y = lt_of_mul-lt-mul_left x (omega (arith, sums, suc-mul n y)) in
    elim (Bool-cases (ltb x (e + y))) [
      | inl hit ↦
          let over : x < e + y = ground (arith, hit) in
          let next : x * (mark + 1) ≡ x * suc mark = ap (λ k. x * k) (omega arith) in
          rw (hit, more_marks)
            (
              inside,
              more_marks-All x y n (mark + 1) (e + y - x) some_given enough
                  (omega (arith, enough, small))
                  (omega (arith, over, sums, suc-mul n y, mul-suc x mark, next)),
            )
      | inr miss ↦
          rw (miss, more_marks)
            (
              inside,
              more_marks-All x y n mark (e + y) some_given enough (ground (arith, miss))
                  (omega (arith, sums, suc-mul n y)),
            )
    ]

-- Where the phone has a mark, the marks chosen are as many as are wanted, each one of those given, and in
-- their order.
pub marks_for-IsSortedFrom :
    (req giv : ℕ)
    → 1 ≤ giv
    → (length (marks_for req giv) ≡ req)
      × All (IsGiven giv) (marks_for req giv)
      × IsSortedFrom (pos 0) (marks_for req giv)
unfolding marks_for
marks_for-IsSortedFrom req giv some_given = elim (Bool-cases (ltb req giv)) [
  | inl e ↦
      let few : req < giv = ground (arith, e) in
      let (left, less, sums) = fewer_marks-length req giv giv 0 0 few some_given in
      let count = length (fewer_marks req giv giv 0 0) in
      let not_more : count ≤ req =
        le_of_mul-le-mul_left {k = giv} (omega (arith, sums)) some_given in
      let not_less : req < suc count =
        lt_of_mul-lt-mul_left giv (omega (arith, sums, less, mul-suc giv count)) in
      rw (e, marks_for)
        (
          omega (arith, not_more, not_less),
          fewer_marks-All req giv giv 0 0 few (inr refl) (omega arith),
          fewer_marks-IsSortedFrom req giv giv 0 0 0 few (inr refl) (omega arith),
        )
  | inr e ↦
      rw (e, marks_for)
        (
          more_marks-length req giv req 0 0,
          more_marks-All req giv req 0 0 some_given (ground (arith, e)) (omega arith) (omega arith),
          more_marks-IsSortedFrom req giv req 0 0 0 (omega arith),
        )
]
