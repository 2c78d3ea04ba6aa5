-- ===== src/Frames/Select.antt =====
-- `bresenham_mod` and `nochange_mod` of di_select.cc, and the counting before them.
use speech_synthesis_system.Base.{
  ℕ, zero, suc, ◌+◌, ◌-◌, Bool, true, false, ℤ, pos, negsuc, Option, none, some, List, [], ◌∷◌,
  ◌++◌, map, ltb, leb, if◌then◌else◌,
}

-- The places of one phone in the arrays of DIPHONE_SPN; `ref` is none where it has not been set, as that of
-- the last phone.
pub record PhoneMarks : Type 0 where
  pub pm_req : ℕ
  pub pm_giv : ℕ
  pub pm_chg_diph : ℕ
  pub ref : Option ℕ

-- The places of one frame in the arrays of DIPHONE_ACOUSTIC; `diph_ref` is none where it is read from what
-- is not set.
pub record Frame : Type 0 where
  pub phon_ref : ℕ
  pub phon_mark : ℤ
  pub diph_ref : Option ℕ

-- `i-1`.
abbrev pub mark_before : ℕ → ℤ
mark_before zero = negsuc 0
mark_before (suc i) = pos i

-- The loop where fewer marks are wanted than given: `n` rounds are left, and `i` is the next.
unfoldable pub fewer_marks : ℕ → ℕ → ℕ → ℕ → ℕ → List ℤ
fewer_marks deltax deltay zero i error = []
fewer_marks deltax deltay (suc n) i error = elim (leb deltay (error + deltax)) [
  | true ↦ mark_before i ∷ fewer_marks deltax deltay n (i + 1) (error + deltax - deltay)
  | false ↦ fewer_marks deltax deltay n (i + 1) (error + deltax)
]

-- The loop where at least as many are wanted.
unfoldable pub more_marks : ℕ → ℕ → ℕ → ℕ → ℕ → List ℤ
more_marks deltax deltay zero y error = []
more_marks deltax deltay (suc n) y error = pos y ∷ elim (ltb deltax (error + deltay)) [
  | true ↦ more_marks deltax deltay n (y + 1) (error + deltay - deltax)
  | false ↦ more_marks deltax deltay n y (error + deltay)
]

unfoldable pub marks_for : ℕ → ℕ → List ℤ
unfolding fewer_marks more_marks
marks_for deltax deltay =
    if ltb deltax deltay
    then fewer_marks deltax deltay deltay 0 0
    else more_marks deltax deltay deltax 0 0

-- `mark >= place`.
abbrev pub has_reached : ℤ → ℕ → Bool
has_reached (pos mark) place = leb place mark
has_reached (negsuc mark) place = false

abbrev pub frame_at : ℕ → Option ℕ → PhoneMarks → ℤ → Frame
frame_at ph before p mark = record {
  phon_ref = ph;
  phon_mark = mark;
  diph_ref = if has_reached mark p.pm_chg_diph then p.ref else before;
}

-- The loop over the phones; `before` is the `ref` of the phone before.
unfoldable pub bresenham_mod : ℕ → Option ℕ → List PhoneMarks → List Frame
unfolding marks_for
bresenham_mod ph before [] = []
bresenham_mod ph before (p ∷ ps) =
    map (frame_at ph before p) (marks_for p.pm_req p.pm_giv) ++ bresenham_mod (ph + 1) p.ref ps

-- `n` marks from `i` on.
abbrev pub marks_from : ℕ → ℕ → List ℤ
marks_from zero i = []
marks_from (suc n) i = pos i ∷ marks_from n (i + 1)

unfoldable pub nochange_mod : ℕ → Option ℕ → List PhoneMarks → List Frame
nochange_mod ph before [] = []
nochange_mod ph before (p ∷ ps) =
    map (frame_at ph before p) (marks_from p.pm_giv 0) ++ nochange_mod (ph + 1) p.ref ps

-- A diphone between two phones: its reference, and its marks before and behind the middle.
pub record Diphone : Type 0 where
  pub ref : ℕ
  pub lmark : ℕ
  pub rmark : ℕ

-- The phones with their marks wanted, those given by the diphones between them, and the references of these;
-- `rest` is what the diphone before gives, 0 for the first phone. There is a diphone less than phones.
unfoldable pub phones_of : ℕ → List ℕ → List Diphone → List PhoneMarks
phones_of rest [] ds = []
phones_of rest (req ∷ wanted) [] =
    record { pm_req = req; pm_giv = rest; pm_chg_diph = rest; ref = none } ∷ []
phones_of rest (req ∷ wanted) (d ∷ ds) =
    record { pm_req = req; pm_giv = rest + d.lmark; pm_chg_diph = rest; ref = some d.ref }
    ∷ phones_of d.rmark wanted ds
