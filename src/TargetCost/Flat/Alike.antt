-- ===== src/TargetCost/Flat/Alike.antt =====
-- The numbers of names and parts of speech in EST_FlatTargetCost.cc beside the texts of EST_TargetCost.cc.
use speech_synthesis_system.Base.{
  ℕ, String, ◌≡◌, refl, Bool, true, false, Option, none, some, [], ◌∷◌, str_eq, eq_iff, ◌==◌,
  if◌then◌else◌, arith,
}
use speech_synthesis_system.TargetCost.Contexts.{one_of, simple_pos as pos_text}
use speech_synthesis_system.TargetCost.Flat.Numbers.{PhoneHash, number_in, simple_pos}
use speech_synthesis_system.TargetCost.Flat.Hash.{IsNumbering, IsKept}

-- The number of a neighbour in the hash, 0 for none.
abbrev pub HasNumber : PhoneHash → Option String → ℕ → Type 0
HasNumber h none n = n ≡ 0
HasNumber h (some a) n = number_in a h.numbers ≡ some n

pub HasNumber-IsKept :
    (h later : PhoneHash) (name : Option String) (n : ℕ)
    → IsKept h later
    → HasNumber h name n
    → HasNumber later name n
HasNumber-IsKept h later none n kept e = e
HasNumber-IsKept h later (some a) n kept e = kept a n e

abbrev pub same_name : Option String → Option String → Bool
same_name none none = true
same_name (some a) none = false
same_name none (some b) = false
same_name (some a) (some b) = str_eq a b

pub HasNumber-same_name :
    (h : PhoneHash) (a b : Option String) (m n : ℕ)
    → IsNumbering h
    → HasNumber h a m
    → HasNumber h b n
    → (m == n) ≡ same_name a b
HasNumber-same_name h none none m n keeps p q = ground (arith, p, q)
HasNumber-same_name h (some a) none m n keeps p q = ground (arith, (keeps.counted a m p).0, q)
HasNumber-same_name h none (some b) m n keeps p q = ground (arith, (keeps.counted b n q).0, p)
HasNumber-same_name h (some a) (some b) m n keeps p q =
    ground (arith, p, q, eq_iff a b, keeps.single a b m)

-- The four classes of parts of speech, and both their names.
data PosClass : Type 0 where
  noun verb modifier function : PosClass

abbrev number_of : PosClass → ℕ
number_of noun = 1
number_of verb = 2
number_of modifier = 3
number_of function = 0

abbrev text_of : PosClass → String
text_of noun = "n"
text_of verb = "v"
text_of modifier = "other"
text_of function = "func"

number_of-text_of : (j k : PosClass) → (number_of j == number_of k) ≡ str_eq (text_of j) (text_of k)
number_of-text_of noun noun = refl
number_of-text_of noun verb = refl
number_of-text_of noun modifier = refl
number_of-text_of noun function = refl
number_of-text_of verb noun = refl
number_of-text_of verb verb = refl
number_of-text_of verb modifier = refl
number_of-text_of verb function = refl
number_of-text_of modifier noun = refl
number_of-text_of modifier verb = refl
number_of-text_of modifier modifier = refl
number_of-text_of modifier function = refl
number_of-text_of function noun = refl
number_of-text_of function verb = refl
number_of-text_of function modifier = refl
number_of-text_of function function = refl

abbrev branch {ℓ} : {A : Type ℓ} → Bool → Bool → Bool → A → A → A → A → A
branch p q r a b c d = if p then a else if q then b else if r then c else d

branch-class :
    (p q r : Bool)
    → (k : PosClass) × (branch p q r 1 2 3 0 ≡ number_of k)
      × (branch p q r "n" "v" "other" "func" ≡ text_of k)
branch-class true q r = (noun, refl, refl)
branch-class false true r = (verb, refl, refl)
branch-class false false true = (modifier, refl, refl)
branch-class false false false = (function, refl, refl)

pos_class : (s : String) → (k : PosClass) × (simple_pos s ≡ number_of k) × (pos_text s ≡ text_of k)
unfolding simple_pos pos_text
pos_class s =
    branch-class (one_of s ("nn" ∷ "nnp" ∷ "nns" ∷ "nnps" ∷ "fw" ∷ "sym" ∷ "ls" ∷ []))
      (one_of s ("vbd" ∷ "vb" ∷ "vbn" ∷ "vbz" ∷ "vbp" ∷ "vbg" ∷ []))
      (one_of s ("jj" ∷ "jjr" ∷ "jjs" ∷ "1" ∷ "2" ∷ "rb" ∷ "rp" ∷ "rbr" ∷ "rbs" ∷ []))

pub simple_pos-same :
    (s t : String) → (simple_pos s == simple_pos t) ≡ str_eq (pos_text s) (pos_text t)
simple_pos-same s t =
    let (j, j_number, j_text) = pos_class s in
    let (k, k_number, k_text) = pos_class t in
    rw (j_number, k_number, j_text, k_text) (number_of-text_of j k)
