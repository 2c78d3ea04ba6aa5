-- ===== src/Lts/Tests.antt =====
-- Runs of the letter-to-sound rules, and the theorems at concrete rules.
use speech_synthesis_system.Base.{
  ◌≡◌, refl, ok, err, List, [], ◌∷◌, ◌++◌, ◌>>=◌, map, true, arith, All,
}
use speech_synthesis_system.Lts.Context.{Symbols, Sets, context_match, item_match, assq}
use speech_synthesis_system.Lts.Language.{one, star, print, Decides, Matches}
use speech_synthesis_system.Lts.Deciding.{context_match-Decides}
use speech_synthesis_system.Lts.Rules.{misparsed_rule, Ruleset, apply, check_alpha}
use speech_synthesis_system.Lts.Normalize.{normalize, make_ruleset}
use speech_synthesis_system.Lts.Derivation.{RuleSpec, IsSoundRule, Explains}
use speech_synthesis_system.Lts.Applying.{compiled}
use speech_synthesis_system.Lts.Reading.{IsWritten, rule_text, alphabet_of, make_ruleset-rule_text}
use speech_synthesis_system.Lts.Misparsed.{normalize-no_equals}
use speech_synthesis_system.Lts.Alphabet.{HasNoSets, apply-check_alpha}
use speech_synthesis_system.Lts.Registry.{cell, lts_def_ruleset, lts_apply_ruleset}
use speech_synthesis_system.Lts.Lookup.{lts_apply_ruleset-Explains}

abbrev vowels : Sets
vowels = ("V", "a" ∷ "e" ∷ "o" ∷ []) ∷ []

-- [ c ] e = s
abbrev soft_c : RuleSpec
soft_c = record { left = []; centre = "c" ∷ []; right = one "e" ∷ []; rhs = "s" ∷ [] }

-- [ c ] = k
abbrev hard_c : RuleSpec
hard_c = record { left = []; centre = "c" ∷ []; right = []; rhs = "k" ∷ [] }

-- V * c [ a t ] # = ae t
abbrev final_at : RuleSpec
final_at = record {
  left = one "c" ∷ star "V" ∷ [];
  centre = "a" ∷ "t" ∷ [];
  right = one "#" ∷ [];
  rhs = "ae" ∷ "t" ∷ [];
}

abbrev toy_rules : List RuleSpec
toy_rules = soft_c ∷ hard_c ∷ final_at ∷ []

abbrev cat : Symbols
cat = "c" ∷ "a" ∷ "t" ∷ []

written_at :
    rule_text final_at ≡ "V" ∷ "*" ∷ "c" ∷ "[" ∷ "a" ∷ "t" ∷ "]" ∷ "#" ∷ "=" ∷ "ae" ∷ "t" ∷ []
written_at = refl

run_cat :
    (do rs ← make_ruleset "toy" (map rule_text toy_rules) vowels; apply "nil" rs cat)
    ≡ ok ("k" ∷ "ae" ∷ "t" ∷ [])
unfolding make_ruleset apply
run_cat = refl

soft_c-IsSoundRule : IsSoundRule "nil" vowels soft_c
unfolding item_match
soft_c-IsSoundRule = record {
  left_sound = tt;
  right_sound = (((refl, refl), refl), tt);
  centre_sound = (refl, tt);
  has_centre = λ e. cc e;
}

hard_c-IsSoundRule : IsSoundRule "nil" vowels hard_c
unfolding item_match
hard_c-IsSoundRule = record {
  left_sound = tt;
  right_sound = tt;
  centre_sound = (refl, tt);
  has_centre = λ e. cc e;
}

final_at-IsSoundRule : IsSoundRule "nil" vowels final_at
unfolding item_match
final_at-IsSoundRule = record {
  left_sound = (((refl, refl), refl), (((refl, refl), refl), tt));
  right_sound = (((refl, refl), refl), tt);
  centre_sound = (refl, (refl, tt));
  has_centre = λ e. cc e;
}

toy_sound : All (IsSoundRule "nil" vowels) toy_rules
toy_sound = (soft_c-IsSoundRule, (hard_c-IsSoundRule, (final_at-IsSoundRule, tt)))

toy-IsWritten : All IsWritten toy_rules
toy-IsWritten = (
  record {
    left_plain = tt;
    left_marks = tt;
    centre_marks = (refl, tt);
    right_marks = (refl, tt);
    has_centre = λ e. cc e;
  },
  (
    record {
      left_plain = tt;
      left_marks = tt;
      centre_marks = (refl, tt);
      right_marks = tt;
      has_centre = λ e. cc e;
    },
    (
      record {
        left_plain = ((refl, refl), ((refl, refl), tt));
        left_marks = (refl, (refl, (refl, tt)));
        centre_marks = (refl, (refl, tt));
        right_marks = (refl, tt);
        has_centre = λ e. cc e;
      },
      tt,
    ),
  ),
)

context_match-Decides_example :
    Decides
      (Matches vowels (one "c" ∷ star "V" ∷ []) ("c" ∷ "e" ∷ "a" ∷ []))
      (context_match "nil" 9 vowels ("c" ∷ "e" ∷ "a" ∷ []) (print (one "c" ∷ star "V" ∷ [])))
context_match-Decides_example =
    context_match-Decides "nil" vowels 9 ("c" ∷ "e" ∷ "a" ∷ []) (one "c" ∷ star "V" ∷ [])
      final_at-IsSoundRule.left_sound (omega arith)

make_ruleset-rule_text_example :
    make_ruleset "toy" (map rule_text toy_rules) vowels
    ≡ ok (compiled "toy" (alphabet_of toy_rules []) vowels toy_rules)
make_ruleset-rule_text_example = make_ruleset-rule_text "toy" vowels toy_rules toy-IsWritten

lts_apply_ruleset-Explains_example : Explains vowels toy_rules ("#" ∷ []) (cat ++ "#" ∷ []) (do
  (n, l') ← lts_def_ruleset "toy" vowels (map rule_text toy_rules) []
  lts_apply_ruleset "nil" (λ s. s ∷ []) (cell "c" ("a" ∷ "t" ∷ [])) n l')
lts_apply_ruleset-Explains_example =
    lts_apply_ruleset-Explains "nil" "toy" (λ s. s ∷ []) vowels toy_rules []
      (cell "c" ("a" ∷ "t" ∷ [])) toy-IsWritten toy_sound

apply-cat :
    apply "nil" (compiled "toy" (alphabet_of toy_rules []) vowels toy_rules) cat
    ≡ ok ("k" ∷ "ae" ∷ "t" ∷ [])
unfolding apply
apply-cat = refl

toy_no_sets : All (HasNoSets vowels) toy_rules
unfolding assq
toy_no_sets = ((refl, tt), ((refl, tt), ((refl, (refl, tt)), tt)))

apply-check_alpha_example :
    check_alpha (compiled "toy" (alphabet_of toy_rules []) vowels toy_rules) cat ≡ true
apply-check_alpha_example =
    apply-check_alpha "nil" "toy" vowels toy_rules cat ("k" ∷ "ae" ∷ "t" ∷ []) toy_sound toy_no_sets
      (refl, (refl, (refl, tt))) apply-cat

abbrev toy : Ruleset
toy = compiled "toy" [] vowels toy_rules

normalize-no_equals_example : normalize (("[" ∷ "c" ∷ "]" ∷ "k" ∷ []) ∷ []) [] ≡ err misparsed_rule
normalize-no_equals_example =
    normalize-no_equals ("[" ∷ "c" ∷ "]" ∷ "k" ∷ []) [] [] (refl, (refl, (refl, (refl, tt))))
