-- ===== src/Frames/Exact.antt =====
-- The frames that `bresenham_mod` chooses for all phones.
use speech_synthesis_system.Base.{
  ℕ, zero, suc, ◌++◌, ◌+◌, ◌≤◌, ◌<◌, ◌≡◌, ℤ, pos, negsuc, refl, ap, ◌∙◌, ◌⊎◌, inl, inr, Bool,
  Option, none, some, List, [], ◌∷◌, length, length-append, get_elem?, map, All, All-append,
  All-mono, leb, if◌then◌else◌, arith, Bool-cases,
}
use speech_synthesis_system.Frames.Select.{
  PhoneMarks, Frame, marks_for, frame_at, bresenham_mod, marks_from, nochange_mod, Diphone,
  phones_of,
}
use speech_synthesis_system.Frames.Marks.{IsGiven, marks_for-IsSortedFrom}

abbrev pub wanted_marks : List PhoneMarks → ℕ
wanted_marks [] = 0
wanted_marks (p ∷ ps) = p.pm_req + wanted_marks ps

abbrev pub all_given_marks : List PhoneMarks → ℕ
all_given_marks [] = 0
all_given_marks (p ∷ ps) = p.pm_giv + all_given_marks ps

-- The reference of the diphone before a phone: `before` for the first one.
abbrev pub ref_before : Option ℕ → List PhoneMarks → ℕ → Option ℕ
ref_before before ps zero = before
ref_before before [] (suc i) = none
ref_before before (p ∷ ps) (suc i) = ref_before p.ref ps i

-- The frame stands for one of the phones, counted from `ph`, and for a mark given for it; its diphone is the
-- one behind the phone where the mark has reached the change, and the one before it otherwise, and is set.
abbrev pub IsFrameOf : ℕ → Option ℕ → List PhoneMarks → Frame → Type 0
IsFrameOf ph before ps f =
    (i : ℕ) × (p : PhoneMarks) × (m : ℕ) × (r : ℕ) × (f.phon_ref ≡ ph + i)
    × (get_elem? ps i ≡ some p)
    × (f.phon_mark ≡ pos m)
    × (m < p.pm_giv)
    × (f.diph_ref ≡ some r)
    × ((if leb p.pm_chg_diph m then p.ref else ref_before before ps i) ≡ some r)

-- Each phone finds the reference before it or needs none, and has its own or needs none, since its marks end
-- where the diphone changes.
abbrev IsLinked : Option ℕ → List PhoneMarks → Type 0
IsLinked before [] = Unit
IsLinked before (p ∷ ps) =
    ((p.pm_chg_diph ≡ 0) ⊎ ((r : ℕ) × (before ≡ some r)))
    × (((r : ℕ) × (p.ref ≡ some r)) ⊎ (p.pm_giv ≤ p.pm_chg_diph))
    × IsLinked p.ref ps

length-map : (f : ℤ → Frame) (l : List ℤ) → length (map f l) ≡ length l
length-map f [] = refl
length-map f (m ∷ l) = ap suc (length-map f l)

All-map :
    (P : Frame → Type 0) (f : ℤ → Frame) (Q : ℤ → Type 0) (l : List ℤ)
    → ((m : ℤ) → Q m → P (f m))
    → All Q l
    → All P (map f l)
All-map P f Q [] h a = tt
All-map P f Q (m ∷ l) h a = (h m a.0, All-map P f Q l h a.1)

diph_ref-some :
    (before : Option ℕ) (p : PhoneMarks) (m : ℕ)
    → (p.pm_chg_diph ≡ 0) ⊎ ((r : ℕ) × (before ≡ some r))
    → ((r : ℕ) × (p.ref ≡ some r)) ⊎ (p.pm_giv ≤ p.pm_chg_diph)
    → m < p.pm_giv
    → (r : ℕ) × ((if leb p.pm_chg_diph m then p.ref else before) ≡ some r)
diph_ref-some before p m start own less = elim (Bool-cases (leb p.pm_chg_diph m)) [
  | inl e ↦
      let reached : p.pm_chg_diph ≤ m = ground (arith, e) in
      (elim own [
        | inl (r, set) ↦ (r, ap (λ (b : Bool). if b then p.ref else before) e ∙ set)
        | inr ends ↦ absurd (omega (arith, reached, ends, less))
      ])
  | inr e ↦
      let above : m < p.pm_chg_diph = ground (arith, e) in
      (elim start [
        | inl first ↦ absurd (omega (arith, above, first))
        | inr (r, there) ↦ (r, ap (λ (b : Bool). if b then p.ref else before) e ∙ there)
      ])
]

frame_at-IsFrameOf :
    (ph : ℕ) (before : Option ℕ) (p : PhoneMarks) (ps : List PhoneMarks)
    → (p.pm_chg_diph ≡ 0) ⊎ ((r : ℕ) × (before ≡ some r))
    → ((r : ℕ) × (p.ref ≡ some r)) ⊎ (p.pm_giv ≤ p.pm_chg_diph)
    → (mark : ℤ) → IsGiven p.pm_giv mark
    → IsFrameOf ph before (p ∷ ps) (frame_at ph before p mark)
frame_at-IsFrameOf ph before p ps start own (pos m) less =
    let (r, there) = diph_ref-some before p m start own less in
    (0, p, m, r, omega arith, refl, refl, less, there, there)
frame_at-IsFrameOf ph before p ps start own (negsuc m) less = absurd less

-- The frames of one phone, for marks that are given for it, and those of the phones behind it.
frames-IsFrameOf :
    (ph : ℕ) (before : Option ℕ) (p : PhoneMarks) (ps : List PhoneMarks) (marks : List ℤ)
    (later : List Frame)
    → All (IsGiven p.pm_giv) marks
    → (p.pm_chg_diph ≡ 0) ⊎ ((r : ℕ) × (before ≡ some r))
    → ((r : ℕ) × (p.ref ≡ some r)) ⊎ (p.pm_giv ≤ p.pm_chg_diph)
    → All (IsFrameOf (ph + 1) p.ref ps) later
    → All (IsFrameOf ph before (p ∷ ps)) (map (frame_at ph before p) marks ++ later)
frames-IsFrameOf ph before p ps marks later inside start own rest =
    All-append (IsFrameOf ph before (p ∷ ps)) (map (frame_at ph before p) marks) later
      (All-map (IsFrameOf ph before (p ∷ ps)) (frame_at ph before p) (IsGiven p.pm_giv) marks
        (frame_at-IsFrameOf ph before p ps start own) inside)
      (All-mono (IsFrameOf (ph + 1) p.ref ps) (IsFrameOf ph before (p ∷ ps)) later
        (λ f (i, q, m, r, at, found, mark, less, set, which).
          (suc i, q, m, r, omega (arith, at), found, mark, less, set, which))
        rest)

length-frames :
    (f : ℤ → Frame) (marks : List ℤ) (later : List Frame)
    → length (map f marks ++ later) ≡ length marks + length later
length-frames f marks later = omega (arith, length-append (map f marks) later, length-map f marks)

bresenham_mod-IsFrameOf :
    (ph : ℕ) (before : Option ℕ) (ps : List PhoneMarks)
    → All (λ p. 1 ≤ p.pm_giv) ps
    → IsLinked before ps
    → (length (bresenham_mod ph before ps) ≡ wanted_marks ps)
      × All (IsFrameOf ph before ps) (bresenham_mod ph before ps)
unfolding bresenham_mod
bresenham_mod-IsFrameOf ph before [] given linked = (refl, tt)
bresenham_mod-IsFrameOf ph before (p ∷ ps) (some_given, given) (start, own, linked) =
    let marks = marks_for p.pm_req p.pm_giv in
    let (count, inside, sorted) = marks_for-IsSortedFrom p.pm_req p.pm_giv some_given in
    let (rest_count, rest) = bresenham_mod-IsFrameOf (ph + 1) p.ref ps given linked in
    let later = bresenham_mod (ph + 1) p.ref ps in
    (
      omega (arith, length-frames (frame_at ph before p) marks later, count, rest_count),
      frames-IsFrameOf ph before p ps marks later inside start own rest,
    )

marks_from-All : (n i top : ℕ) → i + n ≤ top → All (IsGiven top) (marks_from n i)
marks_from-All zero i top h = tt
marks_from-All (suc n) i top h = (omega (arith, h), marks_from-All n (i + 1) top (omega (arith, h)))

length-marks_from : (n i : ℕ) → length (marks_from n i) ≡ n
length-marks_from zero i = refl
length-marks_from (suc n) i = ap suc (length-marks_from n (i + 1))

nochange_mod-IsFrameOf :
    (ph : ℕ) (before : Option ℕ) (ps : List PhoneMarks)
    → IsLinked before ps
    → (length (nochange_mod ph before ps) ≡ all_given_marks ps)
      × All (IsFrameOf ph before ps) (nochange_mod ph before ps)
unfolding nochange_mod
nochange_mod-IsFrameOf ph before [] linked = (refl, tt)
nochange_mod-IsFrameOf ph before (p ∷ ps) (start, own, linked) =
    let marks = marks_from p.pm_giv 0 in
    let (rest_count, rest) = nochange_mod-IsFrameOf (ph + 1) p.ref ps linked in
    let later = nochange_mod (ph + 1) p.ref ps in
    (
      omega (
        arith,
        length-frames (frame_at ph before p) marks later,
        length-marks_from p.pm_giv 0,
        rest_count,
      ),
      frames-IsFrameOf ph before p ps marks later (marks_from-All p.pm_giv 0 p.pm_giv (omega arith))
          start own rest,
    )

phones_of-IsLinked :
    (rest : ℕ) (before : Option ℕ) (wanted : List ℕ) (ds : List Diphone)
    → (rest ≡ 0) ⊎ ((r : ℕ) × (before ≡ some r))
    → IsLinked before (phones_of rest wanted ds)
unfolding phones_of
phones_of-IsLinked rest before [] ds start = tt
phones_of-IsLinked rest before (req ∷ wanted) [] start = (start, inr (omega arith), tt)
phones_of-IsLinked rest before (req ∷ wanted) (d ∷ ds) start = (
  start,
  inl (d.ref, refl),
  phones_of-IsLinked d.rmark (some d.ref) wanted ds (inr (d.ref, refl)),
)

-- Where the diphones give every phone a mark, `bresenham_mod` over the marks that they give chooses as many
-- frames as are wanted of the phones together, and `nochange_mod` as many as are given. Each frame stands
-- for a phone and for a mark given for that phone, and its reference is that of the diphone behind the phone
-- from the mark on where the diphone changes, and that of the diphone before the phone up to there: neither
-- `ref[-1]` nor the reference of the last phone, which is not set, is ever read.
pub bresenham_mod-nochange_mod :
    (wanted : List ℕ) (ds : List Diphone)
    → All (λ p. 1 ≤ p.pm_giv) (phones_of 0 wanted ds)
    → let ps = phones_of 0 wanted ds in
      (length (bresenham_mod 0 none ps) ≡ wanted_marks ps)
      × All (IsFrameOf 0 none ps) (bresenham_mod 0 none ps)
      × (length (nochange_mod 0 none ps) ≡ all_given_marks ps)
      × All (IsFrameOf 0 none ps) (nochange_mod 0 none ps)
bresenham_mod-nochange_mod wanted ds given =
    let ps = phones_of 0 wanted ds in
    let linked = phones_of-IsLinked 0 none wanted ds (inl refl) in
    let (count, frames) = bresenham_mod-IsFrameOf 0 none ps given linked in
    let (same_count, same_frames) = nochange_mod-IsFrameOf 0 none ps linked in
    (count, frames, same_count, same_frames)
