-- ===== src/TargetCost/Flat/Places.antt =====
-- The numbers of places in EST_FlatTargetCost.cc beside the places of EST_TargetCost.cc.
use speech_synthesis_system.Base.{
  ℕ, ◌≤◌, String, ◌≡◌, refl, not, Option, some, ◌==◌, arith, Option-cases, inl, inr,
}
use speech_synthesis_system.Builtin.Items.{Items, exists}
use speech_synthesis_system.Builtin.Counts.{is_same_item}
use speech_synthesis_system.TargetCost.Contexts.{
  Contents, Tcpos, tcpos_medial, tcpos_inter, tcpos_initial, tcpos_final, tcpos, is_tcpos, next_of,
  previous_of,
}
use speech_synthesis_system.TargetCost.Flat.Numbers.{place}
use speech_synthesis_system.TargetCost.Flat.Packing.{id_of}

-- The numbers of the places.
abbrev place_number : Tcpos → ℕ
place_number tcpos_medial = 0
place_number tcpos_inter = 1
place_number tcpos_initial = 2
place_number tcpos_final = 3

place_number-same : (x y : Tcpos) → (place_number x == place_number y) ≡ is_tcpos x y
place_number-same x y = ground arith

module _ (u : Items) (c : Contents u) (after_underscore : String → ℕ) where
  -- The segments that a diphone's packing looks at.
  pub data Near (seg : u.Item) : Option u.Item → Type 0 where
    at_segment : Near seg (some seg)
    at_next : Near seg (next_of u (some seg))
    at_next_next : Near seg (next_of u (next_of u (some seg)))
    at_previous : Near seg (previous_of u (some seg))

  abbrev pub number_at : Option u.Item → ℕ
  number_at p = id_of u c after_underscore p

  -- The ids of the units above a segment and its neighbours are positive numbers, the same for the same
  -- unit only.
  pub record HasIds (get : Option u.Item → Option u.Item) (seg : u.Item) : Type 0 where
    pub positive :
        (a : Option u.Item) (p : u.Item) → Near seg a → get a ≡ some p → 1 ≤ number_at (some p)
    pub apart :
        (a b : Option u.Item) (p q : u.Item)
        → Near seg a
        → Near seg b
        → get a ≡ some p
        → get b ≡ some q
        → (number_at (some p) == number_at (some q)) ≡ u.same p q

  pub number_at-exists :
      (get : Option u.Item → Option u.Item) (seg : u.Item) (a : Option u.Item)
      → HasIds get seg
      → Near seg a
      → (number_at (get a) == 0) ≡ not (exists (get a))
  number_at-exists get seg a ids near = elim (Option-cases (get a)) [
    | inl e ↦ rw e refl
    | inr (p, e) ↦ let above = ids.positive a p near e in rw e (ground (arith, above))
  ]

  number_at-same :
      (get : Option u.Item → Option u.Item) (seg : u.Item) (a b : Option u.Item)
      → HasIds get seg
      → Near seg a
      → Near seg b
      → (number_at (get a) == number_at (get b)) ≡ is_same_item u (get a) (get b)
  number_at-same get seg a b ids near other = elim (Option-cases (get a)) [
    | inl e ↦ elim (Option-cases (get b)) [
      | inl f ↦ rw (e, f) refl
      | inr (q, f) ↦ let above = ids.positive b q other f in rw (e, f) (ground (arith, above))
    ]
    | inr (p, e) ↦ elim (Option-cases (get b)) [
      | inl f ↦ let above = ids.positive a p near e in rw (e, f) (ground (arith, above))
      | inr (q, f) ↦ rw (e, f) (ids.apart a b p q near other e f)
    ]
  ]

  abbrev pub place_by : (Option u.Item → Option u.Item) → u.Item → ℕ
  unfolding place
  place_by get seg =
      place (number_at (get (some seg))) (number_at (get (next_of u (some seg))))
        (number_at (get (next_of u (next_of u (some seg)))))
        (number_at (get (previous_of u (some seg))))

  place_by-tcpos :
      (get : Option u.Item → Option u.Item) (seg : u.Item)
      → HasIds get seg
      → place_by get seg ≡ place_number (tcpos u get seg)
  unfolding place tcpos
  place_by-tcpos get seg ids = ground (
    arith,
    number_at-same get seg (some seg) (next_of u (some seg)) ids at_segment at_next,
    number_at-same get seg (some seg) (previous_of u (some seg)) ids at_segment at_previous,
    number_at-same get seg (next_of u (some seg)) (next_of u (next_of u (some seg))) ids at_next
        at_next_next,
  )

  pub place_by-same :
      (get : Option u.Item → Option u.Item) (targ cand : u.Item)
      → HasIds get targ
      → HasIds get cand
      → (place_by get targ == place_by get cand) ≡ is_tcpos (tcpos u get targ) (tcpos u get cand)
  place_by-same get targ cand ids cand_ids =
      rw (place_by-tcpos get targ ids, place_by-tcpos get cand cand_ids)
        (place_number-same (tcpos u get targ) (tcpos u get cand))
