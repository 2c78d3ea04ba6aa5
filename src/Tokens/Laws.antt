-- ===== src/Tokens/Laws.antt =====
-- What is documented of the calls that token.cc makes, and what it is that a call returns.
use Prim.Native.String.{[] as no_text, ◌∷◌ as ◌then_text◌, len}
use Prim.Native.String.len
use text.Mathlib.TextPositions.{len_utf8-pos}
use speech_synthesis_system.Base.{
  ℕ, ◌+◌, ◌^◌, ◌≤◌, ◌<◌, String, ◌≡◌, Bool, true, false, Option, some, str_eq, if◌then◌else◌, arith,
}
use speech_synthesis_system.Tokens.Words.{Settings}
use speech_synthesis_system.Tokens.Calls.{EstCalls}
use speech_synthesis_system.Tokens.Spoken.{magnitude}
use speech_synthesis_system.Tokens.Spelling.{remove_punct}
use speech_synthesis_system.Tokens.Expanding.{is_commaed}

-- What the libraries document: the parts before and after a text that stands in another, with this text,
-- are as long as the whole; a part that lies in a text has the length asked; without punctuation what stands
-- before the point of a number with commas is shorter; and `atoi` of at most nine bytes gives an integer of
-- at most nine digits.
pub record EstLaws (calls : EstCalls) (st : Settings) : Type 0 where
  pub cut :
      (s t : String)
      → calls.contains s t ≡ true
      → len (calls.before s t) + len t + len (calls.after s t) ≡ len s
  pub part : (s : String) (i n : ℕ) → i + n ≤ len s → len (calls.at s i n) ≡ n
  pub commas :
      (s : String)
      → is_commaed calls s ≡ true
      → calls.contains s "." ≡ true
      → len (remove_punct calls st (calls.before s ".")) < len (calls.before s ".")
  pub short : (s : String) → len s ≤ 9 → magnitude (calls.atoi s) < 2 ^ 31

abbrev pub Returns {ℓ} : {A : Type ℓ} → Option A → Type ℓ
Returns {A = A} o = (a : A) × (o ≡ some a)

pub len-positive : (s : String) → str_eq s "" ≡ false → 1 ≤ len s
len-positive no_text h = absurd (ground (arith, h))
len-positive (c then_text s) h = let (k, e) = len_utf8-pos c in rw (len.cons c s, e) (omega arith)

pub Returns-if {ℓ} :
    {A : Type ℓ} (b : Bool) {x y : Option A} → Returns x → Returns y → Returns (if b then x else y)
Returns-if true h k = h
Returns-if false h k = k
