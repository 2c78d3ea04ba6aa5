-- ===== src/Tokens/Stream.antt =====
-- `FT_English_Token_Utt` and `FT_Any_Token_Utt` of token.cc: the words of the tokens of an utterance.
use speech_synthesis_system.Base.{
  String, Bool, true, false, ◌&&◌, not, Option, none, some, List, [], ◌∷◌, ◌++◌, map, str_eq,
  if◌then◌else◌,
}
use speech_synthesis_system.Tokens.Words.{Settings, ◌>>=◌}
use speech_synthesis_system.Tokens.Calls.{EstCalls, Token, Word, plain}
use speech_synthesis_system.Tokens.Expanding.{word_it}

abbrev pub is_empty : List Word → Bool
is_empty [] = true
is_empty (w ∷ ws) = false

-- The tokens with their daughters, and the relation of words.
pub record Stream : Type 0 where
  pub tokens : List (Token × List Word)
  pub words : List Word

-- The loop over the tokens: each gives its token, which may have changed, and its words.
unfoldable pub token_loop :
    (Token → Option (Token × List Word)) → List Token → Stream → Option Stream
token_loop words_of [] s = some s
token_loop words_of (t ∷ ts) s = do
  (t', ws) ← words_of t
  token_loop words_of ts (record { tokens = s.tokens ++ (t', ws) ∷ []; words = s.words ++ ws })

abbrev pub no_words : Stream
no_words = record { tokens = []; words = [] }

module _ (calls : EstCalls) (st : Settings) (known : String → Bool)
    (user : Option (Token → String → Option (List Word))) where
  abbrev pub exploded : String → List Word
  exploded text = map plain (calls.symbolexplode text)

  -- `is_not_end` tells that the tree of ends of utterances predicts 0 for a token.
  module _ (is_not_end : Token → Bool) where
    -- The words of the punctuation behind the token, and the token, which loses a mark that is none.
    unfoldable pub with_punctuation : Token → List Word → Token × List Word
    with_punctuation t words =
        if not (is_empty words) && not (str_eq t.punc "0")
        then (if str_eq t.punc "." && is_not_end t
            then (record t { punc = "0" }, words)
            else (t, words ++ exploded t.punc))
        else (t, words)

    abbrev pub prepunctuation_words : Token → List Word
    prepunctuation_words t =
        if not (str_eq t.prepunctuation "0") && not (str_eq t.prepunctuation "")
        then exploded t.prepunctuation
        else []

    unfoldable pub english_words : Token → Option (Token × List Word)
    unfolding word_it with_punctuation
    english_words t = do
      words ← word_it calls st known user t t.name
      some (with_punctuation t (prepunctuation_words t ++ words))

    unfoldable pub ft_english_token_utt : List Token → Option Stream
    unfolding token_loop english_words
    ft_english_token_utt tokens = token_loop english_words tokens no_words

  abbrev pub has_user : Bool
  has_user = elim user [ none ↦ false | some f ↦ true ]

  unfoldable pub any_words : Token → Option (Token × List Word)
  unfolding word_it
  any_words t =
      let by_user = (do words ← word_it calls st known user t t.name; some (t, words)) in
      if has_user then by_user else some (t, plain t.name ∷ [])

  unfoldable pub ft_any_token_utt : List Token → Option Stream
  unfolding token_loop any_words
  ft_any_token_utt tokens = token_loop any_words tokens no_words
