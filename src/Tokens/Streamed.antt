-- ===== src/Tokens/Streamed.antt =====
-- The words of tokens in the loop of `FT_English_Token_Utt`, and of a token that is a number.
use Prim.Native.String.{len}
use speech_synthesis_system.Base.{
  String, ◌≡◌, refl, ap, sym, ◌∙◌, Bool, Option, none, some, List, [], ◌∷◌, ◌++◌, append_assoc,
  append-nil, map, arith, All,
}
use speech_synthesis_system.Tokens.Words.{Settings, ◌>>=◌}
use speech_synthesis_system.Tokens.Calls.{EstCalls, Token, Word}
use speech_synthesis_system.Tokens.Expanding.{word_it}
use speech_synthesis_system.Tokens.Stream.{
  Stream, token_loop, no_words, with_punctuation, prepunctuation_words, english_words,
  ft_english_token_utt,
}
use speech_synthesis_system.Tokens.Laws.{EstLaws}
use speech_synthesis_system.Tokens.Ending.{HasNoLeast, word_it-Returns}

abbrev pub all_daughters : List (Token × List Word) → List Word
all_daughters [] = []
all_daughters ((t, ws) ∷ rest) = ws ++ all_daughters rest

abbrev pub name_of_token : Token × List Word → String
name_of_token (t, ws) = t.name

-- The loop puts every token with its words behind those that are there.
token_loop-map :
    (words_of : Token → Option (Token × List Word)) (f : Token → Token × List Word)
    (ts : List Token) (s : Stream)
    → All (λ t. words_of t ≡ some (f t)) ts
    → token_loop words_of ts s
      ≡ some (record { tokens = s.tokens ++ map f ts; words = s.words ++ all_daughters (map f ts) })
unfolding token_loop
token_loop-map words_of f [] s h = rw (append-nil s.tokens, append-nil s.words) refl
token_loop-map words_of f (t ∷ ts) s h =
    let next : Stream = record { tokens = s.tokens ++ f t ∷ []; words = s.words ++ (f t).1 } in
    rw h.0 (
      token_loop-map words_of f ts next h.1
      ∙ rw
          (
            append_assoc s.tokens (f t ∷ []) (map f ts),
            append_assoc s.words (f t).1 (all_daughters (map f ts)),
          )
          refl)

map-same :
    (f : Token → Token × List Word) (ts : List Token)
    → ((t : Token) → (f t).0.name ≡ t.name)
    → map name_of_token (map f ts) ≡ map (λ (t : Token). t.name) ts
map-same f [] h = refl
map-same f (t ∷ ts) h = rw (h t, map-same f ts h) refl

abbrev said : Option (List Word) → List Word
said none = []
said (some ws) = ws

module _ (calls : EstCalls) (st : Settings) (laws : EstLaws calls st) (known : String → Bool)
    (is_not_end : Token → Bool) where
  name-with_punctuation :
      (t : Token) (ws : List Word)
      → (with_punctuation calls st known none is_not_end t ws).0.name ≡ t.name
  unfolding with_punctuation
  name-with_punctuation t ws = ground arith

  -- The words of `word_it`, none where it does not return.
  abbrev words_for_token : Token → List Word
  words_for_token t = said (word_it calls st known none t t.name)

  abbrev made : Token → Token × List Word
  made t =
      with_punctuation calls st known none is_not_end t
        (prepunctuation_words calls st known none is_not_end t ++ words_for_token t)

  english_words-made :
      (ts : List Token)
      → All (λ t. HasNoLeast calls st laws known t (len t.name)) ts
      → All (λ t. english_words calls st known none is_not_end t ≡ some (made t)) ts
  unfolding english_words
  english_words-made [] least = tt
  english_words-made (t ∷ ts) least =
      let (ws, words) = word_it-Returns calls st laws known t t.name least.0 in
      (
        ap
              (λ (o : Option (List Word)). (do
                v ← o
                some (
                    with_punctuation calls st known none is_not_end t
                      (prepunctuation_words calls st known none is_not_end t ++ v))))
              words
            ∙ ap
                (λ (o : Option (List Word)). some (
                  with_punctuation calls st known none is_not_end t
                    (prepunctuation_words calls st known none is_not_end t ++ said o)))
                (sym words),
        english_words-made ts least.1,
      )

  -- Without a function of the user's, where the calls of the libraries keep what is documented of them, and
  -- where no text that is not longer than the name of a token is both expanded for it as an ordinal and read
  -- by `atoi` as the least integer of 32 bits, `FT_English_Token_Utt` returns: the tokens keep their order
  -- and their names, and the relation of words is the words of the tokens one after the other.
  pub ft_english_token_utt_lem :
      (tokens : List Token)
      → All (λ t. HasNoLeast calls st laws known t (len t.name)) tokens
      → (s : Stream) × (ft_english_token_utt calls st known none is_not_end tokens ≡ some s)
        × (s.words ≡ all_daughters s.tokens)
        × (map name_of_token s.tokens ≡ map (λ (t : Token). t.name) tokens)
  unfolding ft_english_token_utt
  ft_english_token_utt_lem tokens least = (
    record { tokens = map made tokens; words = all_daughters (map made tokens) },
    token_loop-map (english_words calls st known none is_not_end) made tokens no_words
        (english_words-made tokens least),
    refl,
    map-same made tokens (λ t. name-with_punctuation t _),
  )
