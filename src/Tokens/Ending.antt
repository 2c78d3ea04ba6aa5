-- ===== src/Tokens/Ending.antt =====
-- The recursion of `word_it` in token.cc.
use Prim.Native.String.{◌++◌ as ◌and_text◌, len}
use text.Mathlib.TextPositions.{len-append}
use speech_synthesis_system.Base.{
  ℕ, zero, suc, ◌-◌, ◌^◌, ◌≤◌, ◌<◌, String, ◌≡◌, refl, inl, inr, Bool, Option, none, some, List, [],
  ◌∷◌, map, arith, Bool-cases,
}
use speech_synthesis_system.Tokens.Words.{Settings}
use speech_synthesis_system.Tokens.Calls.{EstCalls, Token, Word, plain, with_pos}
use speech_synthesis_system.Tokens.Spelling.{
  remove_punct, say_num_as_words, say_num_as_ordinal, say_as_digits, say_as_letters,
}
use speech_synthesis_system.Tokens.Expanding.{
  Branch, empty_token, single_letter, in_lexicon, ordinal_number, year_number, digit_string,
  integer, integer_ordinal, commaed_point, commaed, apostrophe_s, point_number, as_letters,
  no_punct_letters, as_is, punctuation, internet_address, front_symbol, rear_symbol, other_token,
  cut_at, without, branch_of, dotted, point_digits, take_branch, builtin_word_it, word_it,
}
use speech_synthesis_system.Tokens.Laws.{EstLaws, Returns}
use speech_synthesis_system.Tokens.Spoken.{magnitude}
use speech_synthesis_system.Tokens.Fitting.{Fits, branch_of-Fits}
use speech_synthesis_system.Tokens.Returning.{
  appended-Returns, say_num_as_words-Returns, plain_words-Returns, say_num_as_year-Returns,
  say_num_as_ordinal-Returns, point_digits-Returns,
}

module _ (calls : EstCalls) (st : Settings) (laws : EstLaws calls st) where
  -- What holds of `word_it` for all texts that are shorter.
  abbrev ReturnsBelow : (String → Option (List Word)) → ℕ → Type 0
  ReturnsBelow word_of n = (t : String) → len t < n → Returns (word_of t)

  dotted-Returns :
      (word_of : String → Option (List Word)) (n fuel : ℕ) (tok : String)
      → ReturnsBelow word_of n
      → len tok < n
      → len tok < fuel
      → Returns (dotted calls word_of fuel tok)
  unfolding dotted
  dotted-Returns word_of n zero tok below short enough = absurd (omega (arith, enough))
  dotted-Returns word_of n (suc fuel) tok below short enough =
      elim (Bool-cases (calls.contains tok ".")) [
        | inl e ↦
            let whole = laws.cut tok "." e in
            rw (e, dotted)
              (appended-Returns calls st laws (word_of (calls.before tok "."))
                (dotted calls word_of fuel (calls.after tok ".")) (plain "dot" ∷ [])
                (below (calls.before tok ".") (omega (arith, whole, short)))
                (dotted-Returns word_of n fuel (calls.after tok ".") below
                  (omega (arith, whole, short)) (omega (arith, whole, enough))))
        | inr e ↦ rw (e, dotted) (below tok short)
      ]

  -- An ordinal is not the least integer, for which `num_2_words` does not return.
  abbrev pub IsNotLeast : String → Branch → Type 0
  IsNotLeast tok branch =
      (branch ≡ ordinal_number → magnitude (calls.atoi tok) < 2 ^ 31)
      × (branch ≡ integer_ordinal → magnitude (calls.atoi (calls.at tok 0 (len tok - 2))) < 2 ^ 31)

  take_branch-Returns :
      (word_of : String → Option (List Word)) (fuel : ℕ) (tok : String) (branch : Branch)
      → IsNotLeast tok branch
      → ReturnsBelow word_of (len tok)
      → len tok < suc fuel
      → Fits calls tok branch
      → Returns (take_branch calls st word_of (suc fuel) tok branch)
  unfolding take_branch
  take_branch-Returns word_of fuel tok empty_token least below enough fits = ([], refl)
  take_branch-Returns word_of fuel tok single_letter least below enough fits =
      (with_pos tok st.letter_pos ∷ [], refl)
  take_branch-Returns word_of fuel tok in_lexicon least below enough fits = (plain tok ∷ [], refl)
  take_branch-Returns word_of fuel tok ordinal_number least below enough fits =
      plain_words-Returns calls st laws (say_num_as_ordinal calls st tok)
        (say_num_as_ordinal-Returns calls st laws tok (least.0 refl))
  take_branch-Returns word_of fuel tok year_number least below enough fits =
      say_num_as_year-Returns calls st laws tok
  take_branch-Returns word_of fuel tok digit_string least below enough fits =
      (say_as_digits calls st tok, refl)
  take_branch-Returns word_of fuel tok integer least below enough fits =
      say_num_as_words-Returns calls st laws tok
  take_branch-Returns word_of fuel tok integer_ordinal least below enough fits =
      plain_words-Returns calls st laws (say_num_as_ordinal calls st (calls.at tok 0 (len tok - 2)))
        (say_num_as_ordinal-Returns calls st laws (calls.at tok 0 (len tok - 2)) (least.1 refl))
  take_branch-Returns word_of fuel tok commaed_point least below enough fits =
      let whole = laws.cut tok "." fits.1 in
      let short = laws.commas tok fits.0 fits.1 in
      let rest = calls.after tok "." in
      let front = remove_punct calls st (calls.before tok ".") in
      below (front and_text ("." and_text rest))
        (omega (arith, whole, short, len-append front ("." and_text rest), len-append "." rest))
  take_branch-Returns word_of fuel tok commaed least below enough fits =
      say_num_as_words-Returns calls st laws (remove_punct calls st tok)
  take_branch-Returns word_of fuel tok apostrophe_s least below enough fits =
      appended-Returns calls st laws (word_of (calls.at tok 0 (len tok - 2))) (some [])
        (plain "'s" ∷ [])
        (below (calls.at tok 0 (len tok - 2))
          (omega (arith, fits, laws.part tok 0 (len tok - 2) (omega arith))))
        ([], refl)
  take_branch-Returns word_of fuel tok point_number least below enough fits =
      appended-Returns calls st laws (say_num_as_words calls st (calls.before tok "."))
        (point_digits calls st (calls.stringexplode (calls.after tok ".")) []) (plain "point" ∷ [])
        (say_num_as_words-Returns calls st laws (calls.before tok "."))
        (point_digits-Returns calls st laws (calls.stringexplode (calls.after tok ".")) [])
  take_branch-Returns word_of fuel tok as_letters least below enough fits =
      (say_as_letters calls st tok, refl)
  take_branch-Returns word_of fuel tok no_punct_letters least below enough fits =
      (say_as_letters calls st (remove_punct calls st tok), refl)
  take_branch-Returns word_of fuel tok as_is least below enough fits = (plain tok ∷ [], refl)
  take_branch-Returns word_of fuel tok punctuation least below enough fits =
      (map plain (calls.stringexplode tok), refl)
  take_branch-Returns word_of fuel tok internet_address least below enough fits =
      let whole = laws.cut tok "." fits in
      rw (fits, dotted)
        (appended-Returns calls st laws (word_of (calls.before tok "."))
          (dotted calls word_of fuel (calls.after tok ".")) (plain "dot" ∷ [])
          (below (calls.before tok ".") (omega (arith, whole)))
          (dotted-Returns word_of (len tok) fuel (calls.after tok ".") below (omega (arith, whole))
            (omega (arith, whole, enough))))
  take_branch-Returns word_of fuel tok front_symbol least below enough fits =
      appended-Returns calls st laws (some (say_as_letters calls st (calls.at tok 0 1)))
        (word_of (calls.at tok 1 (len tok - 1))) []
        (say_as_letters calls st (calls.at tok 0 1), refl)
        (below (calls.at tok 1 (len tok - 1))
          (omega (arith, fits, laws.part tok 1 (len tok - 1) (omega (arith, fits)))))
  take_branch-Returns word_of fuel tok rear_symbol least below enough fits =
      appended-Returns calls st laws (word_of (calls.at tok 0 (len tok - 1)))
        (some (say_as_letters calls st (calls.at tok (len tok - 1) 1))) []
        (below (calls.at tok 0 (len tok - 1))
          (omega (arith, fits, laws.part tok 0 (len tok - 1) (omega arith))))
        (say_as_letters calls st (calls.at tok (len tok - 1) 1), refl)
  take_branch-Returns word_of fuel tok other_token least below enough fits =
      (say_as_letters calls st (remove_punct calls st tok), refl)
  take_branch-Returns word_of fuel tok (cut_at sign between) least below enough fits =
      let whole = laws.cut tok sign fits.0 in
      appended-Returns calls st laws (word_of (calls.before tok sign))
        (word_of (calls.after tok sign)) between
        (below (calls.before tok sign) (omega (arith, whole, fits.1)))
        (below (calls.after tok sign) (omega (arith, whole, fits.1)))
  take_branch-Returns word_of fuel tok (without sign) least below enough fits =
      let whole = laws.cut tok sign fits.0 in
      below (calls.before tok sign and_text calls.after tok sign)
        (omega (arith, whole, fits.1, len-append (calls.before tok sign) (calls.after tok sign)))

  -- None of the texts of at most `n` bytes is expanded as an ordinal that is the least integer.
  abbrev pub HasNoLeast : (String → Bool) → Token → ℕ → Type 0
  HasNoLeast known token n = (t : String) → len t ≤ n → IsNotLeast t (branch_of calls known token t)

  builtin_word_it-Returns :
      (known : String → Bool) (token : Token) (fuel : ℕ) (tok : String)
      → HasNoLeast known token (len tok)
      → len tok < fuel
      → Returns (builtin_word_it calls st known none fuel token tok)
  unfolding builtin_word_it
  builtin_word_it-Returns known token zero tok least h = absurd (omega (arith, h))
  builtin_word_it-Returns known token (suc fuel) tok least h =
      take_branch-Returns (builtin_word_it calls st known none fuel token) fuel tok
        (branch_of calls known token tok) (least tok (omega arith))
        (λ t shorter.
          builtin_word_it-Returns known token fuel t
            (λ u small. least u (omega (arith, small, shorter))) (omega (arith, shorter, h)))
        h (branch_of-Fits calls known token tok)

  -- Without a function of the user's, where the calls of the libraries keep what is documented of them, and
  -- where no text that is not longer than the token is both expanded as an ordinal and read by `atoi` as the
  -- least integer of 32 bits, the expansion of a token comes to an end and gives its words, whatever the
  -- lexicon holds.
  pub word_it-Returns :
      (known : String → Bool) (token : Token) (tok : String)
      → HasNoLeast known token (len tok)
      → (ws : List Word) × (word_it calls st known none token tok ≡ some ws)
  unfolding word_it
  word_it-Returns known token tok least =
      builtin_word_it-Returns known token (suc (len tok)) tok least (omega arith)
