-- ===== src/Json/Write.antt =====
-- The text of tokens, and the tokens that are read from it.
use garden_evm_watcher.Common.{
  ℕ, ◌≤◌, ◌<◌, ◌≡◌, ◌≢◌, refl, sym, ap, subst, ◌∙◌, ◌⊎◌, inl, inr, Bool, true, if◌then◌else◌,
  lt→ltb, Bytes, ascii, bytes_comparable, List, [], ◌∷◌, ◌++◌, append_assoc, append-nil, map, All,
  arith,
}
use garden_evm_watcher.Json.{
  Token, left_brace, right_brace, left_bracket, right_bracket, colon, comma, null_word, true_word,
  false_word, bad, NumberState, at_sign, is_complete, in_number, number_step, between, in_string,
  in_number_at, plain, open_token, string_step, lex_step, lex,
}
use garden_evm_watcher.Json.Text.{Piece, raw, unquote, unquote_from, unquote_step, copies}

-- A number and a word have a blank behind them.
abbrev pub token_text : Token → Bytes
token_text left_brace = b'{' ∷ []
token_text right_brace = b'}' ∷ []
token_text left_bracket = b'[' ∷ []
token_text right_bracket = b']' ∷ []
token_text colon = b':' ∷ []
token_text comma = b',' ∷ []
token_text null_word = ascii "null "
token_text true_word = ascii "true "
token_text false_word = ascii "false "
token_text (Token.number text) = text ++ b' ' ∷ []
token_text (Token.string text) = b'"' ∷ (text ++ b'"' ∷ [])
token_text bad = []

abbrev pub text_of : List Token → Bytes
text_of [] = []
text_of (token ∷ tokens) = token_text token ++ text_of tokens

-- A printable character of ASCII but '"' and '\', which needs no escape.
abbrev pub IsPlain : ℕ → Type 0
IsPlain ch = ((32 ≤ ch) × (ch < 128)) × ((ch ≢ b'"') × (ch ≢ 92))

-- What the scanner expects after a text.
abbrev pub number_run : NumberState → Bytes → NumberState
number_run s [] = s
number_run s (ch ∷ text) = number_run (number_step s ch) text

abbrev pub IsNumber : Bytes → Type 0
IsNumber [] = ⊥
IsNumber (ch ∷ text) =
    ((ch ≡ b'-') ⊎ ((b'0' ≤ ch) × (ch ≤ b'9')))
    × All (λ c. in_number c ≡ true) text
    × (is_complete (number_run at_sign (ch ∷ text)) ≡ true)

abbrev pub IsPrintable : Token → Type 0
IsPrintable (Token.number text) = IsNumber text
IsPrintable (Token.string text) = All IsPlain text
IsPrintable bad = ⊥
IsPrintable _ = Unit

plain_step :
    (ch : ℕ) (pieces : List Piece)
    → IsPlain ch
    → string_step plain pieces ch ≡ ([], in_string plain (pieces ++ raw ch ∷ []))
unfolding string_step
plain_step ch pieces h = ground arith

lex-plain :
    (text : Bytes) (pieces : List Piece) (rest : Bytes)
    → All IsPlain text
    → lex (in_string plain pieces) (text ++ b'"' ∷ rest)
      ≡ Token.string (unquote (pieces ++ map raw text)) ∷ lex between rest
unfolding lex lex_step string_step
lex-plain [] pieces rest h =
    ap (λ ps. Token.string (unquote ps) ∷ lex between rest) (sym (append-nil pieces))
lex-plain (ch ∷ text) pieces rest h =
    rw (plain_step ch pieces h.0, lex) (lex-plain text (pieces ++ raw ch ∷ []) rest h.1)
    ∙ ap (λ ps. Token.string (unquote ps) ∷ lex between rest)
        (append_assoc pieces (raw ch ∷ []) (map raw text))

unquote_from-plain :
    (text : Bytes) → All IsPlain text → unquote_from (copies 0) (map raw text) ≡ text
unfolding unquote_from unquote_step
unquote_from-plain [] h = refl
unquote_from-plain (ch ∷ text) h =
    rw (lt→ltb ch 128 h.0.0.1, if◌then◌else◌, unquote_from)
      (ap (λ t. ch ∷ t) (unquote_from-plain text h.1))

unquote-plain : (text : Bytes) → All IsPlain text → unquote (map raw text) ≡ text
unfolding unquote
unquote-plain text h = unquote_from-plain text h

lex-number :
    (more text : Bytes) (s : NumberState) (rest : Bytes)
    → All (λ c. in_number c ≡ true) more
    → is_complete (number_run s more) ≡ true
    → lex (in_number_at s text) (more ++ b' ' ∷ rest)
      ≡ Token.number (text ++ more) ∷ lex between rest
unfolding lex lex_step
lex-number [] text s rest all done =
    ap (λ (b : Bool). (if b then Token.number text else bad) ∷ lex between rest) done
    ∙ ap (λ t. Token.number t ∷ lex between rest) (sym (append-nil text))
lex-number (ch ∷ more) text s rest all done =
    rw (all.0, lex, lex_step) (lex-number more (text ++ ch ∷ []) (number_step s ch) rest all.1 done)
    ∙ ap (λ t. Token.number t ∷ lex between rest) (append_assoc text (ch ∷ []) more)

open_number :
    (ch : ℕ)
    → (ch ≡ b'-') ⊎ ((b'0' ≤ ch) × (ch ≤ b'9'))
    → open_token ch ≡ ([], in_number_at (number_step at_sign ch) (ch ∷ []))
unfolding open_token
open_number ch (inl minus) =
    subst (λ c. open_token c ≡ ([], in_number_at (number_step at_sign c) (c ∷ []))) (sym minus) refl
open_number ch (inr (low, high)) = ground arith

pub lex-string :
    (text rest : Bytes)
    → All IsPlain text
    → lex between (b'"' ∷ (text ++ b'"' ∷ rest)) ≡ Token.string text ∷ lex between rest
unfolding lex lex_step open_token
lex-string text rest h =
    lex-plain text [] rest h ∙ ap (λ t. Token.string t ∷ lex between rest) (unquote-plain text h)

lex-token :
    (token : Token) (rest : Bytes)
    → IsPrintable token
    → lex between (token_text token ++ rest) ≡ token ∷ lex between rest
unfolding lex lex_step open_token
lex-token left_brace rest h = refl
lex-token right_brace rest h = refl
lex-token left_bracket rest h = refl
lex-token right_bracket rest h = refl
lex-token colon rest h = refl
lex-token comma rest h = refl
lex-token null_word rest h = refl
lex-token true_word rest h = refl
lex-token false_word rest h = refl
lex-token (Token.number []) rest h = absurd h
lex-token (Token.number (ch ∷ text)) rest (starts, all, done) =
    rw (open_number ch starts, lex, lex_step)
      (ap (lex (in_number_at (number_step at_sign ch) (ch ∷ [])))
          (append_assoc text (b' ' ∷ []) rest)
        ∙ lex-number text (ch ∷ []) (number_step at_sign ch) rest all done)
lex-token (Token.string text) rest h =
    ap (λ t. lex between (b'"' ∷ t)) (append_assoc text (b'"' ∷ []) rest) ∙ lex-string text rest h
lex-token bad rest h = absurd h

-- Tokens that are printed are read back.
pub lex-text_of :
    (tokens : List Token) → All IsPrintable tokens → lex between (text_of tokens) ≡ tokens
unfolding lex
lex-text_of [] h = refl
lex-text_of (token ∷ tokens) h =
    lex-token token (text_of tokens) h.0 ∙ ap (λ ts. token ∷ ts) (lex-text_of tokens h.1)
