-- ===== src/TargetCost/Flat/Marked.antt =====
-- What `pack` keeps of two segments beside the costs of EST_TargetCost.cc: the marks of bad segments.
use speech_synthesis_system.Base.{
  ℕ, String, ◌≡◌, refl, Bool, true, false, ◌&&◌, not, Option, none, some, Outcome, ok,
  if◌then◌else◌,
}
use speech_synthesis_system.Builtin.Items.{Items, exists}
use speech_synthesis_system.TargetCost.Contexts.{Contents, CostError}
use speech_synthesis_system.TargetCost.Costs.{
  cost_of, same_flag, agree_by, same_feature, same_simple_pos, is_present, next_presence,
  presence_if,
}
use speech_synthesis_system.TargetCost.Costs
use speech_synthesis_system.TargetCost.Flat.Costs as Flat
use speech_synthesis_system.TargetCost.Flat.Numbers.{PhoneHash}
use speech_synthesis_system.TargetCost.Flat.Packing.{Asked, present_at, pack}

module _ (u : Items) (c : Contents u) (after_underscore : String → ℕ) where
  two_marks :
      (p q : Bool)
      → ◌≡◌ {A = Outcome CostError ℕ}
          (ok (if not p then 1 else if not q then 1 else 0))
          (if not p then ok 1 else ok (cost_of q))
  two_marks false q = refl
  two_marks true false = refl
  two_marks true true = refl

  four_marks :
      (p q prev behind : Bool)
      → ◌≡◌ {A = Outcome CostError ℕ}
          (ok (
            if not p
            then 1
            else if not q
            then 1
            else if not prev
            then 1
            else if not behind
            then 1
            else 0))
          (if not p then ok 1 else ok (cost_of (q && (prev && behind))))
  four_marks false q prev behind = refl
  four_marks true false prev behind = refl
  four_marks true true false behind = refl
  four_marks true true true false = refl
  four_marks true true true true = refl

  presence_if_lem :
      (f : String) (p q : Option u.Item)
      → exists p ≡ exists q
      → same_flag (present_at u c after_underscore f p) (present_at u c after_underscore f q)
        ≡ presence_if u c f p q
  presence_if_lem f none none e = refl
  presence_if_lem f none (some q) e = cc
  presence_if_lem f (some p) none e = cc
  presence_if_lem f (some p) (some q) e = refl

  pub marks_agree :
      (targ cand next cand_next : u.Item) (a b : Asked) (h h1 : PhoneHash)
      → u.inext targ ≡ some next
      → u.inext cand ≡ some cand_next
      → let t = (pack u c after_underscore targ a h).1 in
        let k = (pack u c after_underscore cand b h1).1 in
        ok (Flat.out_of_lex_cost t k) ≡ Costs.out_of_lex_cost u c targ cand
  unfolding pack Flat.out_of_lex_cost Costs.out_of_lex_cost
  marks_agree targ cand next cand_next a b h h1 e f =
      rw (e, f)
        (two_marks (same_flag (is_present u c "bad_lex" cand) (is_present u c "bad_lex" targ))
          (same_flag (is_present u c "bad_lex" cand_next) (is_present u c "bad_lex" next)))

  pub durations_agree :
      (targ cand next cand_next : u.Item) (a b : Asked) (h h1 : PhoneHash)
      → u.inext targ ≡ some next
      → u.inext cand ≡ some cand_next
      → exists (u.iprev cand) ≡ exists (u.iprev targ)
      → exists (u.inext cand_next) ≡ exists (u.inext next)
      → let t = (pack u c after_underscore targ a h).1 in
        let k = (pack u c after_underscore cand b h1).1 in
        ok (Flat.bad_duration_cost t k) ≡ Costs.bad_duration_cost u c targ cand
  unfolding pack Flat.bad_duration_cost Costs.bad_duration_cost
  durations_agree targ cand next cand_next a b h h1 e f prev behind =
      rw
        (
          e,
          f,
          presence_if_lem "bad_dur" (u.iprev cand) (u.iprev targ) prev,
          presence_if_lem "bad_dur" (u.inext cand_next) (u.inext next) behind,
        )
        (four_marks (same_flag (is_present u c "bad_dur" cand) (is_present u c "bad_dur" targ))
          (same_flag (is_present u c "bad_dur" cand_next) (is_present u c "bad_dur" next))
          (presence_if u c "bad_dur" (u.iprev cand) (u.iprev targ))
          (presence_if u c "bad_dur" (u.inext cand_next) (u.inext next)))
