-- ===== src/Lts/Alphabet.antt =====
-- `check_alpha` of lts_rules.cc against `apply`: a word that the rules rewrite is in their alphabet.
use speech_synthesis_system.Base.{
  String, ◌≡◌, ◌≢◌, ◌⊎◌, inl, inr, refl, sym, true, false, List, [], ◌∷◌, ◌++◌, reverse, str_eq,
  All, none, ok, arith, if◌then◌else◌, eq_iff, eq_refl, subst, All-append, All-append_inv,
  reverse-cons, Bool-cases,
}
use speech_synthesis_system.Lts.Context.{Symbols, Sets, member_str, assq, item_match}
use speech_synthesis_system.Lts.Rules.{Ruleset, apply, check_alpha}
use speech_synthesis_system.Lts.Normalize.{update_alphabet}
use speech_synthesis_system.Lts.Derivation.{
  RuleSpec, Fits, IsSoundRule, First, here, later, Derives, stop, step, Explains,
}
use speech_synthesis_system.Lts.Applying.{compiled, apply-Explains}
use speech_synthesis_system.Lts.Reading.{alphabet_of}

abbrev IsIn : Symbols → String → Type 0
IsIn alphabet s = member_str s alphabet ≡ true

IsIn-cons : (x s : String) (alphabet : Symbols) → IsIn alphabet s → IsIn (x ∷ alphabet) s
unfolding member_str
IsIn-cons x s alphabet h = ground arith

update_alphabet_mono :
    (l alphabet : Symbols) (s : String) → IsIn alphabet s → IsIn (update_alphabet l alphabet) s
unfolding update_alphabet
update_alphabet_mono [] alphabet s h = h
update_alphabet_mono (p ∷ ps) alphabet s h =
    update_alphabet_mono ps _ s (ground (arith, IsIn-cons p s alphabet))

IsIn-self :
    (p : String) (alphabet : Symbols)
    → IsIn (if member_str p alphabet then alphabet else p ∷ alphabet) p
unfolding member_str
IsIn-self p alphabet = elim (Bool-cases (member_str p alphabet)) [
  | inl e ↦ rw e e
  | inr e ↦ rw e (rw (eq_refl p))
]

update_alphabet-All : (l alphabet : Symbols) → All (IsIn (update_alphabet l alphabet)) l
unfolding update_alphabet
update_alphabet-All [] alphabet = tt
update_alphabet-All (p ∷ ps) alphabet =
    (update_alphabet_mono ps _ p (IsIn-self p alphabet), update_alphabet-All ps _)

All-map : {P Q : String → Type 0} (l : Symbols) → ((s : String) → P s → Q s) → All P l → All Q l
All-map [] f h = tt
All-map (x ∷ l) f h = (f x h.0, All-map l f h.1)

All-reverse : (P : String → Type 0) (l : Symbols) → All P (reverse l) → All P l
All-reverse P [] h = tt
All-reverse P (x ∷ l) h =
    let h' = All-append_inv P (reverse l) (x ∷ []) (rw reverse-cons at h) in
    (h'.1.0, All-reverse P l h'.0)

alphabet_of_mono :
    (rules : List RuleSpec) (alphabet : Symbols) (s : String)
    → IsIn alphabet s
    → IsIn (alphabet_of rules alphabet) s
alphabet_of_mono [] alphabet s h = h
alphabet_of_mono (r ∷ rs) alphabet s h =
    alphabet_of_mono rs _ s (update_alphabet_mono (reverse r.centre) alphabet s h)

-- Every item of every centre is put into the alphabet.
alphabet_of-All :
    (rules : List RuleSpec) (alphabet : Symbols)
    → All (λ r. All (IsIn (alphabet_of rules alphabet)) r.centre) rules
alphabet_of-All [] alphabet = tt
alphabet_of-All (r ∷ rs) alphabet = (
  All-map r.centre (alphabet_of_mono rs (update_alphabet (reverse r.centre) alphabet))
      (All-reverse _ r.centre (update_alphabet-All (reverse r.centre) alphabet)),
  alphabet_of-All rs (update_alphabet (reverse r.centre) alphabet),
)

-- No item of the centre is the name of a set.
abbrev pub HasNoSets : Sets → RuleSpec → Type 0
HasNoSets sets r = All (λ x. assq x sets ≡ none) r.centre

item_match-eq :
    (sets : Sets) (c x : String) → assq x sets ≡ none → item_match sets c x ≡ true → c ≡ x
unfolding item_match
item_match-eq sets c x n h = ground (arith, eq_iff c x)

Fits-All :
    (sets : Sets) (P : String → Type 0) (seg centre : Symbols)
    → All (λ x. assq x sets ≡ none) centre
    → Fits sets seg centre
    → All P centre
    → All P seg
Fits-All sets P [] [] n h p = tt
Fits-All sets P [] (x ∷ xs) n h p = absurd h
Fits-All sets P (c ∷ seg) [] n h p = absurd h
Fits-All sets P (c ∷ seg) (x ∷ xs) n h p =
    (subst P (sym (item_match-eq sets c x n.0 h.0)) p.0, Fits-All sets P seg xs n.1 h.1 p.1)

First-All :
    {sets : Sets} {lc a : Symbols} {rules : List RuleSpec} {r : RuleSpec} {seg rest : Symbols}
    (P : String → Type 0)
    → All (HasNoSets sets) rules
    → All (λ q. All P q.centre) rules
    → First sets lc a rules r seg rest
    → All P seg × (a ≡ seg ++ rest) × (rest ≢ [])
First-All {sets} {r} {seg} P n p (here w) =
    (Fits-All sets P seg r.centre n.0 w.fits p.0, w.split, w.more)
First-All P n p (later _ f) = First-All P n.1 p.1 f

-- `#` stands at the end and nowhere else.
abbrev IsClosed : Symbols → Type 0
IsClosed [] = ⊥
IsClosed (x ∷ []) = str_eq "#" x ≡ true
IsClosed (x ∷ y ∷ l) = (str_eq "#" x ≡ false) × IsClosed (y ∷ l)

IsClosed-drop : (seg rest : Symbols) → rest ≢ [] → IsClosed (seg ++ rest) → IsClosed rest
IsClosed-drop [] rest n h = h
IsClosed-drop (x ∷ []) [] n h = absurd (n refl)
IsClosed-drop (x ∷ []) (y ∷ rest) n h = h.1
IsClosed-drop (x ∷ z ∷ seg) rest n h = IsClosed-drop (z ∷ seg) rest n h.1

abbrev IsInOrEnd : Symbols → String → Type 0
IsInOrEnd alphabet s = (str_eq "#" s ≡ true) ⊎ IsIn alphabet s

Derives-All :
    {sets : Sets} {rules : List RuleSpec} {lc a out : Symbols} (alphabet : Symbols)
    → All (HasNoSets sets) rules
    → All (λ q. All (IsIn alphabet) q.centre) rules
    → IsClosed a
    → Derives sets rules lc a out
    → All (IsInOrEnd alphabet) a
Derives-All alphabet n p h (stop {rest = []}) = (inl refl, tt)
Derives-All alphabet n p h (stop {rest = y ∷ l}) = cc (h.0)
Derives-All alphabet n p h (step {rest} {seg} {c} {cs} _ first d) =
    let (taken, split, more) = First-All (IsIn alphabet) n p first in
    subst (All (IsInOrEnd alphabet)) (sym split) (
      All-append (IsInOrEnd alphabet) seg rest (All-map seg (λ s x. inr x) taken)
        (Derives-All alphabet n p (IsClosed-drop seg rest more (subst IsClosed split h)) d))

IsClosed-append :
    (word : Symbols) → All (λ s. str_eq "#" s ≡ false) word → IsClosed (word ++ "#" ∷ [])
IsClosed-append [] h = refl
IsClosed-append (x ∷ []) h = (h.0, refl)
IsClosed-append (x ∷ y ∷ word) h = (h.0, IsClosed-append (y ∷ word) h.1)

check_alpha-All :
    (rs : Ruleset) (word : Symbols)
    → All (λ s. str_eq "#" s ≡ false) word
    → All (IsInOrEnd rs.alphabet) word
    → check_alpha rs word ≡ true
unfolding check_alpha
check_alpha-All rs [] n h = refl
check_alpha-All rs (x ∷ word) n (inl e, h) = cc (e, n.0)
check_alpha-All rs (x ∷ word) n (inr i, h) = rw i (check_alpha-All rs word n.1 h)

-- Where no centre names a set, a word with no `#` that `apply` rewrites passes `check_alpha`.
pub apply-check_alpha :
    (nil_name name : String) (sets : Sets) (rules : List RuleSpec) (word out : Symbols)
    → All (IsSoundRule nil_name sets) rules
    → All (HasNoSets sets) rules
    → All (λ s. str_eq "#" s ≡ false) word
    → apply nil_name (compiled name (alphabet_of rules []) sets rules) word ≡ ok out
    → check_alpha (compiled name (alphabet_of rules []) sets rules) word ≡ true
apply-check_alpha nil_name name sets rules word out sound n h e =
    let alphabet = alphabet_of rules [] in
    let d : Derives sets rules ("#" ∷ []) (word ++ "#" ∷ []) out =
      subst (Explains sets rules ("#" ∷ []) (word ++ "#" ∷ [])) e
        (apply-Explains nil_name name alphabet sets rules sound word) in
    check_alpha-All (compiled name alphabet sets rules) word h
      (All-append_inv _ word ("#" ∷ [])
        (Derives-All alphabet n (alphabet_of-All rules []) (IsClosed-append word h) d)).0
