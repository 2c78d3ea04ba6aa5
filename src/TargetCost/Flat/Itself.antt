-- ===== src/TargetCost/Flat/Itself.antt =====
-- The flat target cost by itself: of a segment for itself, its bounds, and its halved f0 penalty.
use speech_synthesis_system.Base.{
  ℕ, ◌+◌, ◌*◌, ◌/◌, ◌≤◌, String, ◌≡◌, refl, ap, sym, Bool, true, false, ◌&&◌, ◌||◌, not, Option,
  none, some, Outcome, Outcome-cases, ◌⊎◌, ok, err, ◌==◌, if◌then◌else◌, arith, Option-cases, inl,
  inr, bind-ok,
}
use speech_synthesis_system.Phones.State.{PhoneSets}
use speech_synthesis_system.Builtin.Items.{Items}
use speech_synthesis_system.TargetCost.Contexts.{CostError, Contents}
use speech_synthesis_system.TargetCost.Costs.{
  Score, cost_of, same_flag, is_present, phone_penalty, bad_f0_cost as default_bad_f0_cost,
}
use speech_synthesis_system.TargetCost.Flat.Costs.{
  same_number, stress_cost, position_in_syllable_cost, position_in_word_cost,
  position_in_phrase_cost, punctuation_cost, partofspeech_cost, left_context_cost,
  right_context_cost, bad_duration_cost, flat_target_cost,
}
use speech_synthesis_system.TargetCost.Flat.Numbers.{PhoneHash}
use speech_synthesis_system.TargetCost.Flat.Packing.{
  TcData, Asked, is_bad_f0, get_bad_f0, ask, pack, flatpack,
}

==-refl : (n : ℕ) → (n == n) ≡ true
==-refl n = ground arith

same_number-same : (o : Option ℕ) → same_number o o ≡ true
same_number-same none = refl
same_number-same (some n) = ==-refl n

same_flag-same : (b : Bool) → same_flag b b ≡ true
same_flag-same true = refl
same_flag-same false = refl

stress_cost-same :
    (f : TcData)
    → stress_cost f f ≡ (if f.vowel && not f.sil && (f.syl == 0 || not (f.nsyl == 0)) then 1 else 0)
unfolding stress_cost
stress_cost-same f = ground (arith, ==-refl f.syl_stress, ==-refl f.nsyl_stress)

unit_costs-same :
    (f : TcData)
    → (position_in_syllable_cost f f ≡ 0)
      × (position_in_word_cost f f ≡ 0)
      × (partofspeech_cost f f ≡ 0)
      × (position_in_phrase_cost f f ≡ 0)
      × (left_context_cost f f ≡ 0)
      × (right_context_cost f f ≡ 0)
unfolding position_in_syllable_cost position_in_word_cost partofspeech_cost position_in_phrase_cost
    left_context_cost right_context_cost
unit_costs-same f = (
  ap cost_of (==-refl f.sylpos),
  ap cost_of (==-refl f.wqrdpos),
  ground (arith, same_number-same f.pos, same_number-same f.npos),
  ground (arith, same_number-same f.pbreak),
  ap cost_of (==-refl f.lc),
  ap cost_of (==-refl f.rc),
)

bad_costs-same : (f : TcData) → (bad_duration_cost f f ≡ 0) × (punctuation_cost f f ≡ 0)
unfolding bad_duration_cost punctuation_cost
bad_costs-same f = (
  rw
      (
        same_flag-same f.bad_dur,
        same_flag-same f.nbad_dur,
        same_flag-same f.pbad_dur,
        same_flag-same f.nnbad_dur,
      )
      refl,
  ground (arith, same_number-same f.punc, same_number-same f.npunc),
)

score_eq :
    (a b m n : ℕ)
    → a ≡ b
    → m ≡ n
    → ◌≡◌ {A = Score}
        (record { weighted = a; weight_sum = 48; bad_halves = m })
        (record { weighted = b; weight_sum = 48; bad_halves = n })
score_eq a b m n e f = cc

-- A segment used for itself costs nothing but the halved f0 penalty, except where it is a spoken vowel
-- that is in no syllable or whose next segment is in one: then `stress_cost` is 1.
pub flat_target_cost-same :
    (f : TcData)
    → flat_target_cost f f ≡ record {
      weighted = if f.vowel && not f.sil && (f.syl == 0 || not (f.nsyl == 0)) then 10 else 0;
      weight_sum = 48;
      bad_halves = 10 * f.bad_f0;
    }
unfolding flat_target_cost
flat_target_cost-same f =
    let (syllable, word, pos, phrase, left, right) = unit_costs-same f in
    let (duration, punctuation) = bad_costs-same f in
    rw (stress_cost-same f, syllable, word, pos, phrase, left, right, duration, punctuation)
      (score_eq
        (10 * (if f.vowel && not f.sil && (f.syl == 0 || not (f.nsyl == 0)) then 1 else 0)
          + 0
          + 0
          + 0
          + 0
          + 0
          + 0)
        (if f.vowel && not f.sil && (f.syl == 0 || not (f.nsyl == 0)) then 10 else 0)
        (0 + 10 * f.bad_f0 + 0) (10 * f.bad_f0) (ground arith) (omega arith))

-- The flat penalty of a unit whose next segment is there, and both of which have `midcoef`, is half the
-- default one as a whole number: one missing f0 of the two costs nothing.
pub get_bad_f0-bad_f0_cost :
    (u : Items) (c : Contents u) (after_underscore : String → ℕ) (s : PhoneSets)
    (cand next : u.Item) (f0 : ℕ)
    → u.inext cand ≡ some next
    → is_present u c "midcoef" cand ≡ true
    → is_present u c "midcoef" next ≡ true
    → default_bad_f0_cost u c s cand ≡ ok f0
    → get_bad_f0 u c after_underscore s cand next ≡ ok (f0 / 2)
unfolding default_bad_f0_cost get_bad_f0 is_bad_f0 phone_penalty
get_bad_f0-bad_f0_cost u c after_underscore s cand next f0 next_is here there e =
    ground (arith, next_is, here, there, e)

unit_costs-bound :
    (t k : TcData)
    → (stress_cost t k ≤ 1)
      × (position_in_syllable_cost t k ≤ 1)
      × (position_in_word_cost t k ≤ 1)
      × (partofspeech_cost t k ≤ 1)
      × (position_in_phrase_cost t k ≤ 1)
      × (left_context_cost t k ≤ 1)
      × (right_context_cost t k ≤ 1)
unfolding stress_cost position_in_syllable_cost position_in_word_cost partofspeech_cost
    position_in_phrase_cost left_context_cost right_context_cost
unit_costs-bound t k = (
  ground arith,
  ground arith,
  ground arith,
  ground arith,
  ground arith,
  ground arith,
  ground arith,
)

bad_costs-bound : (t k : TcData) → (bad_duration_cost t k ≤ 1) × (punctuation_cost t k ≤ 2)
unfolding bad_duration_cost punctuation_cost
bad_costs-bound t k = (ground arith, ground arith)

module _ (u : Items) (c : Contents u) (after_underscore : String → ℕ) (s : PhoneSets) where
  get_bad_f0-cases :
      (seg next : u.Item)
      → ((error : CostError) × (get_bad_f0 u c after_underscore s seg next ≡ err error))
        ⊎ ((n : ℕ) × (get_bad_f0 u c after_underscore s seg next ≡ ok n) × (n ≤ 1))
  unfolding get_bad_f0
  get_bad_f0-cases seg next = elim (Outcome-cases (is_bad_f0 u c after_underscore s seg)) [
    | inl (error, e) ↦ inl (error, rw e refl)
    | inr (left, e) ↦ elim (Outcome-cases (is_bad_f0 u c after_underscore s next)) [
      | inl (error, f) ↦ inl (error, rw (e, f) refl)
      | inr (right, f) ↦
          inr
            (((if left then 1 else 0) + (if right then 1 else 0)) / 2, rw (e, f) refl, ground arith)
    ]
  ]

  ask-bound :
      (seg : u.Item) (asked : Asked)
      → ask u c after_underscore s seg ≡ ok asked
      → asked.f0_penalty ≤ 1
  unfolding ask
  ask-bound seg asked e = elim (Option-cases (u.inext seg)) [
    | inl none_is ↦ absurd (ground (arith, none_is, e))
    | inr (next, next_is) ↦ elim (get_bad_f0-cases seg next) [
      | inl (error, f) ↦ absurd (ground (arith, next_is, f, e))
      | inr (n, f, bound) ↦ ground (arith, next_is, f, e, bound)
    ]
  ]

  -- Whatever the target, a packed candidate costs at most 1 before the bad marks are added, and these add at
  -- most 25.
  pub flat_target_cost-bound :
      (cand : u.Item) (t k : TcData) (h later : PhoneHash)
      → flatpack u c after_underscore s cand h ≡ ok (later, k)
      → ((flat_target_cost t k).weighted ≤ (flat_target_cost t k).weight_sum)
        × ((flat_target_cost t k).bad_halves ≤ 50)
  unfolding flat_target_cost flatpack pack
  flat_target_cost-bound cand t k h later e =
      let (asked, asked_is, packed) =
        bind-ok (ask u c after_underscore s cand)
          (λ asked. ok (pack u c after_underscore cand asked h)) (later, k) e in
      let penalty : k.bad_f0 ≡ asked.f0_penalty =
        ap
          (λ (o : Outcome CostError (PhoneHash × TcData)). elim o [
            | ok r ↦ r.1.bad_f0
            | err x ↦ asked.f0_penalty
          ])
          (sym packed) in
      let bounded = ask-bound cand asked asked_is in
      let (stress, syllable, word, pos, phrase, left, right) = unit_costs-bound t k in
      let (duration, punctuation) = bad_costs-bound t k in (omega arith, omega arith)
