-- ===== src/Lts/Centre.antt =====
-- `this_match` and `match_rule` of lts_rules.cc against the meaning of a rule.
use speech_synthesis_system.Base.{
  ◌-◌, String, ◌≡◌, ◌≢◌, refl, sym, ap, ◌∙◌, Bool, true, false, Option, none, some, [], ◌∷◌, ◌++◌,
  reverse, All, arith, length, if◌then◌else◌, Bool-cases, inl, inr, length-append, reverse-cons,
  append_assoc,
}
use speech_synthesis_system.Lts.Context.{Symbols, Sets, item_match, context_match}
use speech_synthesis_system.Lts.Language.{print, Matches, Decides, Decides-map}
use speech_synthesis_system.Lts.Deciding.{context_match-Decides}
use speech_synthesis_system.Lts.Rules.{this_match, match_rule, is_nil, and_also, move, context_fuel}
use speech_synthesis_system.Lts.Derivation.{RuleSpec, compile, Fits, IsSoundRule, Rewrites, Applies}

taken : (seg rest : Symbols) → length (seg ++ rest) - length rest ≡ length seg
taken seg rest = omega (arith, length-append seg rest)

module _ (nil_name : String) (sets : Sets) where
  this_match-append :
      (seg rest centre : Symbols)
      → Fits sets seg centre
      → this_match nil_name sets (seg ++ rest) centre ≡ rest
  unfolding this_match
  this_match-append [] rest [] h = refl
  this_match-append [] rest (x ∷ xs) h = absurd h
  this_match-append (c ∷ seg) rest [] h = absurd h
  this_match-append (c ∷ seg) rest (x ∷ xs) h = rw h.0 (this_match-append seg rest xs h.1)

  -- What is left over shows which symbols were taken.
  this_match-split :
      (a centre : Symbols)
      → All (λ x. item_match sets nil_name x ≡ false) centre
      → this_match nil_name sets a centre ≢ []
      → (seg : Symbols) × (a ≡ seg ++ this_match nil_name sets a centre) × Fits sets seg centre
  unfolding this_match
  this_match-split a [] n h = ([], refl, tt)
  this_match-split [] (x ∷ xs) n h = absurd (h (rw n.0))
  this_match-split (c ∷ a) (x ∷ xs) n h = elim (Bool-cases (item_match sets c x)) [
    | inl e ↦
        let (seg, split, fits) = this_match-split a xs n.1 (λ z. h (rw e z)) in
        rw e (c ∷ seg, ap (λ (l : Symbols). c ∷ l) split, (e, fits))
    | inr e ↦ absurd (h (rw e))
  ]

  Decides-and_also :
      (G H : Type 0) (r s : Option Bool)
      → Decides G r
      → Decides H s
      → Decides (G × H) (and_also r s)
  unfolding and_also
  Decides-and_also G H none s d e = absurd d
  Decides-and_also G H (some true) s d e = Decides-map s (λ h. (d, h)) (λ p. p.1) e
  Decides-and_also G H (some false) s d e = λ p. d p.0

  -- The contexts of a rule, around symbols that were taken.
  Decides-contexts :
      (r : RuleSpec) (lc rest : Symbols)
      → IsSoundRule nil_name sets r
      → Decides (Matches sets r.right rest × Matches sets r.left lc) (
          and_also
            (context_match nil_name (context_fuel rest (print r.right)) sets rest (print r.right))
            (context_match nil_name (context_fuel lc (print r.left)) sets lc (print r.left)))
  Decides-contexts r lc rest s =
      Decides-and_also _ _ _ _
        (context_match-Decides nil_name sets _ rest r.right s.right_sound (omega arith))
        (context_match-Decides nil_name sets _ lc r.left s.left_sound (omega arith))

  -- What `match_rule` promises: its verdict is about the rule, and `rest` is behind the centre.
  abbrev pub IsVerdict : RuleSpec → Symbols → Symbols → Symbols × Option Bool → Type 0
  IsVerdict r lc a (rest, none) = ⊥
  IsVerdict r lc a (rest, some true) = (seg : Symbols) × Rewrites sets r lc a seg rest
  IsVerdict r lc a (rest, some false) = ¬ Applies sets r lc a

  rest_unique :
      (r : RuleSpec) (lc a seg rest : Symbols)
      → Rewrites sets r lc a seg rest
      → this_match nil_name sets a r.centre ≡ rest
  rest_unique r lc a seg rest w = rw (w.split) (this_match-append seg rest r.centre w.fits)

  IsVerdict-if :
      (r : RuleSpec) (lc a rest : Symbols) (v : Option Bool)
      → IsSoundRule nil_name sets r
      → this_match nil_name sets a r.centre ≡ rest
      → Decides (Matches sets r.right rest × Matches sets r.left lc) v
      → IsVerdict r lc a (rest, if is_nil rest then some false else v)
  unfolding is_nil
  IsVerdict-if r lc a [] v s e d =
      λ (seg, rest', w). w.more (sym (rest_unique r lc a seg rest' w) ∙ e)
  IsVerdict-if r lc a (c ∷ cs) none s e d = d
  IsVerdict-if r lc a (c ∷ cs) (some true) s e d =
      let (seg, split, fits) = this_match-split a r.centre s.centre_sound (λ z. cc (sym e ∙ z)) in
      (
        seg,
        record {
          split = split ∙ ap (λ (l : Symbols). seg ++ l) e;
          fits = fits;
          more = λ z. cc z;
          right_matches = d.0;
          left_matches = d.1;
        },
      )
  IsVerdict-if r lc a (c ∷ cs) (some false) s e d = λ (seg, rest', w).
      d (rw (sym e ∙ rest_unique r lc a seg rest' w) w.right_matches, w.left_matches)

  pub match_rule-IsVerdict :
      (r : RuleSpec) (lc a : Symbols)
      → IsSoundRule nil_name sets r
      → IsVerdict r lc a (match_rule nil_name sets lc a (compile r))
  unfolding match_rule
  match_rule-IsVerdict r lc a s =
      let rest = this_match nil_name sets a r.centre in
      IsVerdict-if r lc a rest _ s refl (Decides-contexts r lc rest s)

  move_seg :
      (seg rest lc : Symbols) → move nil_name (length seg) (seg ++ rest) lc ≡ reverse seg ++ lc
  unfolding move
  move_seg [] rest lc = refl
  move_seg (c ∷ seg) rest lc =
      move_seg seg rest (c ∷ lc) ∙ (rw reverse-cons (sym (append_assoc (reverse seg) (c ∷ []) lc)))

  -- The loop of `apply` moves what the rule has taken, reversed.
  pub move_taken :
      (seg rest lc : Symbols)
      → move nil_name (length (seg ++ rest) - length rest) (seg ++ rest) lc ≡ reverse seg ++ lc
  move_taken seg rest lc = rw (taken seg rest) (move_seg seg rest lc)
