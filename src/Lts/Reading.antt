-- ===== src/Lts/Reading.antt =====
-- Rules as they are written, and what `normalize` of lts_rules.cc makes of them.
use speech_synthesis_system.Base.{
  String, ◌≡◌, ◌≢◌, refl, sym, ap, ◌∙◌, false, List, [], ◌∷◌, ◌++◌, reverse, str_eq, All, map, ok,
  reverse-cons, append_assoc, append-nil, reverse-reverse,
}
use speech_synthesis_system.Lts.Context.{Symbols, Sets}
use speech_synthesis_system.Lts.Language.{Element, one, star, plus, print, IsPlain}
use speech_synthesis_system.Lts.Rules.{is_nil}
use speech_synthesis_system.Lts.Normalize.{
  fix_postfix_ops, in_left, in_centre, in_right, in_result, Scan, scan, update_alphabet,
  finish_rule, normalize, make_ruleset,
}
use speech_synthesis_system.Lts.Derivation.{RuleSpec, compile}
use speech_synthesis_system.Lts.Applying.{compiled}

-- `( left [ centre ] right = rhs )`
abbrev pub rule_text : RuleSpec → Symbols
rule_text r =
    print (reverse r.left) ++ ("[" ∷ (r.centre ++ ("]" ∷ (print r.right ++ ("=" ∷ r.rhs)))))

abbrev Lacks : String → Symbols → Type 0
Lacks s l = All (λ x. str_eq s x ≡ false) l

-- The symbols of each part can be told from the mark that ends it.
pub record IsWritten (r : RuleSpec) : Type 0 where
  pub left_plain : All IsPlain r.left
  pub left_marks : Lacks "[" (print (reverse r.left))
  pub centre_marks : Lacks "]" r.centre
  pub right_marks : Lacks "=" (print r.right)
  pub has_centre : r.centre ≢ []

-- A context read backwards: each operator in front of its item.
abbrev print_back : List Element → Symbols
print_back [] = []
print_back (one x ∷ es) = x ∷ print_back es
print_back (star x ∷ es) = "*" ∷ x ∷ print_back es
print_back (plus x ∷ es) = "+" ∷ x ∷ print_back es

print_back-append : (es fs : List Element) → print_back (es ++ fs) ≡ print_back es ++ print_back fs
print_back-append [] fs = refl
print_back-append (one x ∷ es) fs = ap (λ (l : Symbols). x ∷ l) (print_back-append es fs)
print_back-append (star x ∷ es) fs = ap (λ (l : Symbols). "*" ∷ x ∷ l) (print_back-append es fs)
print_back-append (plus x ∷ es) fs = ap (λ (l : Symbols). "+" ∷ x ∷ l) (print_back-append es fs)

reverse-print : (es : List Element) → reverse (print es) ≡ print_back (reverse es)
reverse-print [] = refl
reverse-print (one x ∷ es) = simp (reverse-cons, reverse-print es, print_back-append)
reverse-print (star x ∷ es) = simp (reverse-cons, reverse-print es, print_back-append, append_assoc)
reverse-print (plus x ∷ es) = simp (reverse-cons, reverse-print es, print_back-append, append_assoc)

-- Swapping each operator with the item behind it puts them in postfix order again.
fix_postfix_ops-print_back :
    (es : List Element) → All IsPlain es → fix_postfix_ops (print_back es) ≡ ok (print es)
unfolding fix_postfix_ops
fix_postfix_ops-print_back [] h = refl
fix_postfix_ops-print_back (one x ∷ []) h = rw (h.0.0, h.0.1)
fix_postfix_ops-print_back (one x ∷ one y ∷ es) h =
    rw (h.0.0, h.0.1) (rw (fix_postfix_ops-print_back (one y ∷ es) h.1))
fix_postfix_ops-print_back (one x ∷ star y ∷ es) h =
    rw (h.0.0, h.0.1) (rw (fix_postfix_ops-print_back es h.1.1))
fix_postfix_ops-print_back (one x ∷ plus y ∷ es) h =
    rw (h.0.0, h.0.1) (rw (fix_postfix_ops-print_back es h.1.1))
fix_postfix_ops-print_back (star x ∷ es) h = rw (fix_postfix_ops-print_back es h.1)
fix_postfix_ops-print_back (plus x ∷ es) h = rw (fix_postfix_ops-print_back es h.1)

-- The reversed left context becomes the context of the elements in reverse.
pub fix_postfix_ops-reverse :
    (es : List Element)
    → All IsPlain es
    → fix_postfix_ops (reverse (print (reverse es))) ≡ ok (print es)
fix_postfix_ops-reverse es h =
    rw (reverse-print (reverse es)) (rw (reverse-reverse es) (fix_postfix_ops-print_back es h))

scan-left :
    (l k lc t rc : Symbols)
    → Lacks "[" l
    → scan (l ++ ("[" ∷ k)) in_left lc t rc ≡ scan k in_centre (reverse l ++ lc) t rc
unfolding scan
scan-left [] k lc t rc h = refl
scan-left (x ∷ l) k lc t rc h =
    rw h.0 (scan-left l k (x ∷ lc) t rc h.1 ∙ simp (reverse-cons, append_assoc))

scan-centre :
    (l k lc t rc : Symbols)
    → Lacks "]" l
    → scan (l ++ ("]" ∷ k)) in_centre lc t rc ≡ scan k in_right lc (reverse l ++ t) rc
unfolding scan
scan-centre [] k lc t rc h = refl
scan-centre (x ∷ l) k lc t rc h =
    rw h.0 (scan-centre l k lc (x ∷ t) rc h.1 ∙ simp (reverse-cons, append_assoc))

scan-right :
    (l k lc t rc : Symbols)
    → Lacks "=" l
    → scan (l ++ ("=" ∷ k)) in_right lc t rc
      ≡ ok (record { state = in_result; lc = lc; t = t; rc = reverse l ++ rc; rhs = k })
unfolding scan
scan-right [] k lc t rc h = refl
scan-right (x ∷ l) k lc t rc h =
    rw h.0 (scan-right l k lc t (x ∷ rc) h.1 ∙ simp (reverse-cons, append_assoc))

abbrev scanned : RuleSpec → Scan
scanned r = record {
  state = in_result;
  lc = reverse (print (reverse r.left));
  t = reverse r.centre;
  rc = reverse (print r.right);
  rhs = r.rhs;
}

scan-rule_text : (r : RuleSpec) → IsWritten r → scan (rule_text r) in_left [] [] [] ≡ ok (scanned r)
scan-rule_text r w =
    scan-left (print (reverse r.left)) _ [] [] [] w.left_marks
    ∙ scan-centre r.centre _ _ [] [] w.centre_marks
    ∙ scan-right (print r.right) r.rhs _ _ [] w.right_marks
    ∙ simp append-nil

nonempty_is_nil : (l : Symbols) → l ≢ [] → is_nil l ≡ false
unfolding is_nil
nonempty_is_nil [] h = absurd (h refl)
nonempty_is_nil (x ∷ l) h = refl

is_nil-reverse : (l : Symbols) → l ≢ [] → is_nil (reverse l) ≡ false
unfolding is_nil
is_nil-reverse l h = nonempty_is_nil (reverse l) (λ e. h (sym (reverse-reverse l) ∙ ap reverse e))

finish_rule-scanned : (r : RuleSpec) → IsWritten r → finish_rule (scanned r) ≡ ok (compile r)
unfolding finish_rule
finish_rule-scanned r w =
    rw (is_nil-reverse r.centre w.has_centre)
      (rw (fix_postfix_ops-reverse r.left w.left_plain) (simp reverse-reverse))

-- The alphabet after the rules, from the alphabet before them.
abbrev pub alphabet_of : List RuleSpec → Symbols → Symbols
alphabet_of [] alphabet = alphabet
alphabet_of (r ∷ rs) alphabet = alphabet_of rs (update_alphabet (reverse r.centre) alphabet)

normalize-rule_text :
    (rules : List RuleSpec) (alphabet : Symbols)
    → All IsWritten rules
    → normalize (map rule_text rules) alphabet ≡ ok (map compile rules, alphabet_of rules alphabet)
unfolding normalize
normalize-rule_text [] alphabet h = refl
normalize-rule_text (r ∷ rs) alphabet h = rw (scan-rule_text r h.0) (
    rw (finish_rule-scanned r h.0)
      (rw (normalize-rule_text rs (update_alphabet (reverse r.centre) alphabet) h.1) refl))

-- The constructor takes rules, as they are written, to the rules that are meant: the left context
-- turned round with its operators behind their items, the rest in order.
pub make_ruleset-rule_text :
    (name : String) (sets : Sets) (rules : List RuleSpec)
    → All IsWritten rules
    → make_ruleset name (map rule_text rules) sets
      ≡ ok (compiled name (alphabet_of rules []) sets rules)
unfolding make_ruleset
make_ruleset-rule_text name sets rules h = rw (normalize-rule_text rules [] h)
