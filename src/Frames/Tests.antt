-- ===== src/Frames/Tests.antt =====
-- The theorems on frames at three phones, two of them stretched and one shortened.
use speech_synthesis_system.Base.{pos, ℕ, ◌≤◌, ◌≡◌, none, List, [], ◌∷◌, length, All, arith}
use speech_synthesis_system.Frames.Select.{
  PhoneMarks, Diphone, marks_for, bresenham_mod, nochange_mod, phones_of,
}
use speech_synthesis_system.Frames.Marks.{IsGiven, IsSortedFrom, marks_for-IsSortedFrom}
use speech_synthesis_system.Frames.Exact.{IsFrameOf, bresenham_mod-nochange_mod}

-- Three marks of seven.
marks_for-IsSortedFrom_example :
    (length (marks_for 3 7) ≡ 3)
    × All (IsGiven 7) (marks_for 3 7)
    × IsSortedFrom (pos 0) (marks_for 3 7)
marks_for-IsSortedFrom_example = marks_for-IsSortedFrom 3 7 (omega arith)

abbrev wanted : List ℕ
wanted = 5 ∷ 3 ∷ 4 ∷ []

abbrev diphones : List Diphone
diphones =
    record { ref = 10; lmark = 4; rmark = 3 } ∷ record { ref = 11; lmark = 4; rmark = 2 } ∷ []

every_giv : All (λ (p : PhoneMarks). 1 ≤ p.pm_giv) (phones_of 0 wanted diphones)
unfolding phones_of
every_giv = (omega arith, (omega arith, (omega arith, tt)))

bresenham_mod-nochange_mod_example :
    let ps = phones_of 0 wanted diphones in
    (length (bresenham_mod 0 none ps) ≡ 12)
    × All (IsFrameOf 0 none ps) (bresenham_mod 0 none ps)
    × (length (nochange_mod 0 none ps) ≡ 13)
    × All (IsFrameOf 0 none ps) (nochange_mod 0 none ps)
unfolding phones_of
bresenham_mod-nochange_mod_example = bresenham_mod-nochange_mod wanted diphones every_giv
