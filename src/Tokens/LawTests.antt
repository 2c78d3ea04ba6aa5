-- ===== src/Tokens/LawTests.antt =====
-- The theorems on tokens at calls that keep what is documented of them.
use Prim.Native.String.{[] as no_text, ◌++◌ as ◌and_text◌, len, slice, find}
use text.Mathlib.TextPositions.{len-append, slice-append_left, slice-append_right}
use text.Mathlib.TextLemmas.{append_assoc as append-texts}
use text.Mathlib.TextFind.{find_cases}
use speech_synthesis_system.Base.{
  ℤ, pos, ℕ, zero, suc, ◌+◌, String, ◌≡◌, refl, sym, ap, ◌∙◌, inl, inr, Bool, true, false, ◌&&◌,
  none, some, List, [], ◌∷◌, map, str_eq, eq_iff, if◌then◌else◌, arith, Bool-cases, leb, ◌==◌,
}
use speech_synthesis_system.Tokens.Words.{Settings}
use speech_synthesis_system.Tokens.Calls.{EstCalls, Token, Word}
use speech_synthesis_system.Tokens.Expanding.{is_commaed, word_it}
use speech_synthesis_system.Tokens.Stream.{Stream, ft_english_token_utt}
use speech_synthesis_system.Tokens.Laws.{EstLaws}
use speech_synthesis_system.Tokens.Ending.{HasNoLeast, word_it-Returns}
use speech_synthesis_system.Tokens.Streamed.{all_daughters, name_of_token, ft_english_token_utt_lem}

abbrev settings : Settings
settings = record { unknown_word_name = "unknown"; language = "britishenglish"; letter_pos = "nn" }

abbrev filler : ℕ → String
filler zero = no_text
filler (suc n) = " " and_text filler n

filler-len : (n : ℕ) → len (filler n) ≡ n
filler-len zero = refl
filler-len (suc n) = omega (arith, len-append " " (filler n), filler-len n)

-- A part of a text, of the length that is asked.
abbrev part_of : String → ℕ → ℕ → String
part_of s i n = let found = slice s i (i + n) in if len found == n then found else filler n

part_of-len : (s : String) (i n : ℕ) → len (part_of s i n) ≡ n
part_of-len s i n = elim (Bool-cases (len (slice s i (i + n)) == n)) [
  | inl e ↦ rw e (ground (arith, e))
  | inr e ↦ rw e (filler-len n)
]

abbrev int_of : String → ℤ
int_of t = if str_eq t "1234" then pos 1234 else pos 0

-- Only these two texts are numbers.
abbrev has_shape : String → String → Bool
has_shape s t =
    if str_eq t "-?[0-9]+"
    then str_eq s "1234"
    else str_eq s "1,234.5"
      && str_eq t "[0-9][0-9]?[0-9]?,\\([0-9][0-9][0-9],\\)*[0-9][0-9][0-9]\\(\\.[0-9]+\\)?"

abbrev calls : EstCalls
calls = record {
  atoi = int_of;
  before = λ s t. slice s 0 (find s t);
  after = λ s t. slice s (find s t + len t) (len s);
  at = part_of;
  contains = λ s t. leb (find s t) (len s);
  contains_regex = λ s t. false;
  matches = has_shape;
  gsub = λ s t u. if str_eq s "1,234" then "1234" else s;
  downcase = λ s. s;
  stringexplode = λ s. s ∷ [];
  symbolexplode = λ s. s ∷ [];
  rxint = "-?[0-9]+";
  rxalpha = "[A-Za-z]+";
}

cut_at_hit :
    (s t u v : String)
    → s ≡ u and_text (t and_text v)
    → find s t ≡ len u
    → len (slice s 0 (find s t)) + len t + len (slice s (find s t + len t) (len s)) ≡ len s
cut_at_hit s t u v e f =
    let whole : len s ≡ len u + (len t + len v) =
      ap len e ∙ len-append u (t and_text v) ∙ ap (λ n. len u + n) (len-append t v) in
    let front : slice s 0 (find s t) ≡ u =
      ap (λ n. slice s 0 n) f
      ∙ ap (λ w. slice w 0 (len u)) e
      ∙ slice-append_left u (t and_text v) in
    let ut = u and_text t in
    let start : find s t + len t ≡ len ut = omega (arith, f, len-append u t) in
    let end : len s ≡ len ut + len v = omega (arith, whole, len-append u t) in
    let back : slice s (find s t + len t) (len s) ≡ v =
      ap (λ n. slice s n (len s)) start
      ∙ ap (λ n. slice s (len ut) n) end
      ∙ ap (λ w. slice w (len ut) (len ut + len v)) (e ∙ sym (append-texts u t v))
      ∙ slice-append_right ut v in
    rw (front, back) (omega (arith, whole))

commaed_text : (s : String) → is_commaed calls s ≡ true → s ≡ "1,234.5"
commaed_text s h = elim (Bool-cases (str_eq s "1,234.5")) [
  | inl e ↦ (eq_iff s "1,234.5").0 e
  | inr e ↦ absurd (ground (arith, e, h))
]

calls-EstLaws : EstLaws calls settings
calls-EstLaws = record {
  cut = λ s t h. (elim (find_cases s t) [
    | inl (u, v, e, f) ↦ cut_at_hit s t u v e f
    | inr miss ↦ absurd (ground (arith, h, miss))
  ]);
  part = λ s i n h. part_of-len s i n;
  commas = λ s h k. (let same = commaed_text s h in rw same (omega arith));
  short = λ s h. (ground arith);
}

-- In brackets, with a comma behind it.
abbrev bracketed : Token
bracketed = record { name = "1,234.5"; token_pos = "0"; prepunctuation = "("; punc = "," }

no_least : HasNoLeast calls settings calls-EstLaws (λ t. false) bracketed 7
no_least t h = (λ e. ground arith, λ e. ground arith)

word_it-Returns_example :
    (ws : List Word) × (word_it calls settings (λ t. false) none bracketed "1,234.5" ≡ some ws)
word_it-Returns_example =
    word_it-Returns calls settings calls-EstLaws (λ t. false) bracketed "1,234.5" no_least

ft_english_token_utt_lem_example :
    (s : Stream) × (ft_english_token_utt calls settings
        (λ t. false)
        none
        (λ t. true)
        (bracketed ∷ [])
      ≡ some s)
    × (s.words ≡ all_daughters s.tokens)
    × (map name_of_token s.tokens ≡ "1,234.5" ∷ [])
ft_english_token_utt_lem_example =
    ft_english_token_utt_lem calls settings calls-EstLaws (λ t. false) (λ t. true) (bracketed ∷ [])
      (no_least, tt)
