-- ===== src/Lts/Applying.antt =====
-- `rewrite` and `apply` of lts_rules.cc: they return, and the outcome is the meaning of the rules.
use speech_synthesis_system.Base.{
  ℕ, zero, suc, ◌-◌, ◌≤◌, ◌<◌, String, ◌≡◌, ◌≢◌, refl, sym, ◌∙◌, Bool, true, false, Option, none,
  some, List, [], ◌∷◌, ◌++◌, reverse, str_eq, All, arith, length, map, Outcome, ok, err, ◌>>=◌,
  Bool-cases, inl, inr, length-append, reverse-append, append_assoc, append-nil, eq_iff,
  reverse-reverse,
}
use speech_synthesis_system.Lts.Context.{Symbols, Sets, name_of}
use speech_synthesis_system.Lts.Rules.{
  LtsError, no_rule_matches, Ruleset, rewrite, move, apply_loop, apply,
}
use speech_synthesis_system.Lts.Derivation.{
  RuleSpec, compile, Fits, IsSoundRule, Applies, First, here, later, Derives, stop, step, Stuck,
  no_rule, onward, Explains,
}
use speech_synthesis_system.Lts.Centre.{IsVerdict, match_rule-IsVerdict, move_taken}

module _ (sets : Sets) where
  -- A rewriting by the first rule that applies, or none that does.
  abbrev pub IsRewriting :
      List RuleSpec → Symbols → Symbols → Outcome LtsError (Symbols × Symbols) → Type 0
  IsRewriting rules lc a (ok (rhs, rest)) =
      (r : RuleSpec) × (seg : Symbols) × First sets lc a rules r seg rest × (rhs ≡ r.rhs)
  IsRewriting rules lc a (err no_rule_matches) = All (λ r. ¬ Applies sets r lc a) rules
  IsRewriting rules lc a (err _) = ⊥

  IsRewriting-later :
      (q : RuleSpec) (rules : List RuleSpec) (lc a : Symbols)
      (o : Outcome LtsError (Symbols × Symbols))
      → ¬ Applies sets q lc a
      → IsRewriting rules lc a o
      → IsRewriting (q ∷ rules) lc a o
  IsRewriting-later q rules lc a (ok (rhs, rest)) n (r, seg, f, e) = (r, seg, later n f, e)
  IsRewriting-later q rules lc a (err no_rule_matches) n h = (n, h)
  IsRewriting-later q rules lc a (err _) n h = h

  Fits-nonempty : (seg centre : Symbols) → Fits sets seg centre → centre ≢ [] → 0 < length seg
  Fits-nonempty [] [] h n = absurd (n refl)
  Fits-nonempty [] (x ∷ xs) h n = absurd h
  Fits-nonempty (c ∷ seg) centre h n = omega arith

module _ (nil_name : String) (sets : Sets) where
  -- Every rewriting takes a symbol and leaves one.
  First-shorter :
      {lc a : Symbols} {rules : List RuleSpec} {r : RuleSpec} {seg rest : Symbols}
      → All (IsSoundRule nil_name sets) rules
      → First sets lc a rules r seg rest
      → (a ≡ seg ++ rest) × (length rest < length a) × (rest ≢ [])
  First-shorter {r} {seg} {rest} s (here w) = (
    w.split,
    rw w.split (
        omega
          (arith, length-append seg rest, Fits-nonempty sets seg r.centre w.fits s.0.has_centre)),
    w.more,
  )
  First-shorter s (later n f) = First-shorter s.1 f

  -- Of `rewrite` with a first rule whose verdict is known.
  IsRewriting-cons :
      (r : RuleSpec) (rules : List RuleSpec) (lc a rest : Symbols) (v : Option Bool)
      (o : Outcome LtsError (Symbols × Symbols))
      → IsVerdict nil_name sets r lc a (rest, v)
      → IsRewriting sets rules lc a o
      → IsRewriting sets (r ∷ rules) lc a (elim v [
        | none ↦ err LtsError.no_return
        | some b ↦ elim b [ true ↦ ok (r.rhs, rest) | false ↦ o ]
      ])
  IsRewriting-cons r rules lc a rest none o d h = absurd d
  IsRewriting-cons r rules lc a rest (some true) o (seg, w) h = (r, seg, here w, refl)
  IsRewriting-cons r rules lc a rest (some false) o d h = IsRewriting-later sets r rules lc a o d h

  pub rewrite-IsRewriting :
      (rules : List RuleSpec) (lc a : Symbols)
      → All (IsSoundRule nil_name sets) rules
      → IsRewriting sets rules lc a (rewrite nil_name sets lc a (map compile rules))
  unfolding rewrite
  rewrite-IsRewriting [] lc a s = tt
  rewrite-IsRewriting (r ∷ rules) lc a s =
      IsRewriting-cons r rules lc a _ _ _ (match_rule-IsVerdict nil_name sets r lc a s.0)
        (rewrite-IsRewriting rules lc a s.1)

abbrev pub compiled : String → Symbols → Sets → List RuleSpec → Ruleset
compiled name alphabet sets rules = record {
  name = name;
  rules = map compile rules;
  alphabet = alphabet;
  sets = sets;
}

module _ (sets : Sets) (rules : List RuleSpec) where
  -- The outcome of the loop of `apply`, with `result` collected in reverse before.
  abbrev pub IsApplied : Symbols → Symbols → Symbols → Outcome LtsError Symbols → Type 0
  IsApplied lc a result (ok out) =
      (onwards : Symbols) × Derives sets rules lc a onwards × (out ≡ reverse result ++ onwards)
  IsApplied lc a result (err no_rule_matches) = Stuck sets rules lc a
  IsApplied lc a result (err _) = ⊥

  IsApplied-step :
      (r : RuleSpec) (lc rest seg result : Symbols) (c : String) (cs : Symbols)
      (o : Outcome LtsError Symbols)
      → str_eq "#" c ≡ false
      → First sets lc (c ∷ cs) rules r seg rest
      → IsApplied (reverse seg ++ lc) rest (reverse r.rhs ++ result) o
      → IsApplied lc (c ∷ cs) result o
  IsApplied-step r lc rest seg result c cs (ok out) n f (onwards, d, e) =
      (r.rhs ++ onwards, step n f d, e ∙ simp (reverse-append, reverse-reverse, append_assoc))
  IsApplied-step r lc rest seg result c cs (err no_rule_matches) n f d = onward n f d
  IsApplied-step r lc rest seg result c cs (err _) n f d = d

  IsApplied-bind :
      (lc result : Symbols) (c : String) (cs : Symbols) (o : Outcome LtsError (Symbols × Symbols))
      (k : Symbols × Symbols → Outcome LtsError Symbols)
      → str_eq "#" c ≡ false
      → IsRewriting sets rules lc (c ∷ cs) o
      → ((r : RuleSpec) (seg rest : Symbols)
          → First sets lc (c ∷ cs) rules r seg rest
          → IsApplied (reverse seg ++ lc) rest (reverse r.rhs ++ result) (k (r.rhs, rest)))
      → IsApplied lc (c ∷ cs) result (o >>= k)
  IsApplied-bind lc result c cs (ok (rhs, rest)) k n (r, seg, f, e) h =
      rw e (IsApplied-step r lc rest seg result c cs _ n f (h r seg rest f))
  IsApplied-bind lc result c cs (err no_rule_matches) k n a h = no_rule n a
  IsApplied-bind lc result c cs (err _) k n a h = a

  Explains-of_applied :
      (lc a : Symbols) (o : Outcome LtsError Symbols)
      → IsApplied lc a [] o
      → Explains sets rules lc a o
  Explains-of_applied lc a (ok out) (onwards, d, e) = rw e d
  Explains-of_applied lc a (err no_rule_matches) d = d
  Explains-of_applied lc a (err _) d = d

nonempty : (word : Symbols) → word ++ "#" ∷ [] ≢ []
nonempty [] = λ e. cc e
nonempty (c ∷ word) = λ e. cc e

move_split :
    (nil_name : String) (a seg rest lc : Symbols)
    → a ≡ seg ++ rest
    → move nil_name (length a - length rest) a lc ≡ reverse seg ++ lc
move_split nil_name a seg rest lc e = rw e (move_taken nil_name [] seg rest lc)

module _ (nil_name name : String) (alphabet : Symbols) (sets : Sets) (rules : List RuleSpec)
    (sound : All (IsSoundRule nil_name sets) rules) where
  apply_loop-IsApplied :
      (f : ℕ) (lc a result : Symbols)
      → a ≢ []
      → length a ≤ f
      → IsApplied sets rules lc a result
          (apply_loop nil_name f (compiled name alphabet sets rules) lc a result)
  unfolding apply_loop name_of
  apply_loop-IsApplied f lc [] result n h = absurd (n refl)
  apply_loop-IsApplied zero lc (c ∷ cs) result n h = absurd (omega arith)
  apply_loop-IsApplied (suc f) lc (c ∷ cs) result n h = elim (Bool-cases (str_eq "#" c)) [
    | inl e ↦ rw e ([], rw (← (eq_iff "#" c).0 e) stop, sym (append-nil (reverse result)))
    | inr e ↦ rw e (
        IsApplied-bind sets rules lc result c cs _ _ e
          (rewrite-IsRewriting nil_name sets rules lc (c ∷ cs) sound)
          λ r seg rest first.
            let (split, shorter, more) = First-shorter nil_name sets sound first in
            rw (move_split nil_name (c ∷ cs) seg rest lc split) (
              apply_loop-IsApplied f (reverse seg ++ lc) rest (reverse r.rhs ++ result) more
                (omega arith)))
  ]

  -- On rules that are sound for NIL, `apply` returns, and its outcome is the derivation of the word
  -- by the first rule that applies at each place, or the place where no rule does.
  pub apply-Explains :
      (word : Symbols)
      → Explains sets rules
          ("#" ∷ [])
          (word ++ "#" ∷ [])
          (apply nil_name (compiled name alphabet sets rules) word)
  unfolding apply
  apply-Explains word = Explains-of_applied sets rules _ _ _ (
      apply_loop-IsApplied (suc (length word)) ("#" ∷ []) (word ++ "#" ∷ []) [] (nonempty word)
        (omega (arith, length-append word ("#" ∷ []))))
