-- ===== src/Json.antt =====
-- The texts that encoding/json reads, as cmd/config/config.go uses it: the bytes of a text become
-- tokens, in one pass, as its scanner reads them.
pub mod Text
pub mod Parse
pub mod Tokens
pub mod Write
use garden_evm_watcher.Common.{
  ℕ, zero, suc, ◌+◌, ◌-◌, ◌*◌, Bool, true, false, ◌&&◌, ◌||◌, if◌then◌else◌, ltb, leb, eqb, Bytes,
  ascii, bytes_comparable, ◌==◌, List, [], ◌∷◌, ◌++◌, Option, none, some,
}
use garden_evm_watcher.Json.Text.{Piece, raw, unit, unquote}

pub data Token : Type 0 where
  left_brace right_brace left_bracket right_bracket colon comma : Token
  null_word true_word false_word : Token
  number : Bytes → Token
  string : Bytes → Token
  bad : Token

abbrev pub is_space : ℕ → Bool
is_space ch = eqb ch b' ' || (eqb ch 9 || (eqb ch 10 || eqb ch 13))

abbrev pub is_digit : ℕ → Bool
is_digit ch = leb b'0' ch && leb ch b'9'

abbrev pub is_letter : ℕ → Bool
is_letter ch = leb b'a' ch && leb ch b'z'

-- A byte that can stand in a number.
abbrev pub in_number : ℕ → Bool
in_number ch =
    is_digit ch || (eqb ch b'-' || (eqb ch b'+' || (eqb ch b'.' || (eqb ch b'e' || eqb ch b'E'))))

-- What the scanner expects of a number after the bytes so far. `dead` is an error.
pub data NumberState : Type 0 where
  at_sign at_integer after_zero in_integer at_fraction in_fraction at_exponent after_exponent_sign
        in_exponent dead :
      NumberState

-- '.', 'e' or 'E' after the integer part
abbrev after_integer : ℕ → NumberState
after_integer ch =
    if eqb ch b'.' then at_fraction else if eqb ch b'e' || eqb ch b'E' then at_exponent else dead

unfoldable pub number_step : NumberState → ℕ → NumberState
number_step at_sign ch =
    if eqb ch b'-'
    then at_integer
    else if eqb ch b'0'
    then after_zero
    else if is_digit ch
    then in_integer
    else dead
number_step at_integer ch =
    if eqb ch b'0' then after_zero else if is_digit ch then in_integer else dead
number_step after_zero ch = after_integer ch
number_step in_integer ch = if is_digit ch then in_integer else after_integer ch
number_step at_fraction ch = if is_digit ch then in_fraction else dead
number_step in_fraction ch =
    if is_digit ch then in_fraction else if eqb ch b'e' || eqb ch b'E' then at_exponent else dead
number_step at_exponent ch =
    if eqb ch b'+' || eqb ch b'-'
    then after_exponent_sign
    else if is_digit ch
    then in_exponent
    else dead
number_step after_exponent_sign ch = if is_digit ch then in_exponent else dead
number_step in_exponent ch = if is_digit ch then in_exponent else dead
number_step dead ch = dead

abbrev pub is_complete : NumberState → Bool
is_complete after_zero = true
is_complete in_integer = true
is_complete in_fraction = true
is_complete in_exponent = true
is_complete _ = false

-- In a string: after a plain byte, after a backslash, or with digits of \u left to come.
pub data StringState : Type 0 where
  plain escaping : StringState
  hex : ℕ → ℕ → StringState

-- Where the scanner stands. The pieces of a string and the bytes of a word come in order.
pub data LexState : Type 0 where
  between : LexState
  in_string : StringState → List Piece → LexState
  in_number_at : NumberState → Bytes → LexState
  in_word : Bytes → LexState

abbrev pub word : Bytes → Token
word text =
    if text == ascii "null"
    then null_word
    else if text == ascii "true"
    then true_word
    else if text == ascii "false"
    then false_word
    else bad

-- The tokens that end where the scanner stands.
abbrev pub flush : LexState → List Token
flush between = []
flush (in_string s pieces) = bad ∷ []
flush (in_number_at s text) = (if is_complete s then number text else bad) ∷ []
flush (in_word text) = word text ∷ []

-- A byte between two tokens.
unfoldable pub open_token : ℕ → List Token × LexState
unfolding number_step
open_token ch =
    if is_space ch
    then ([], between)
    else if eqb ch b'{'
    then (left_brace ∷ [], between)
    else if eqb ch b'}'
    then (right_brace ∷ [], between)
    else if eqb ch b'['
    then (left_bracket ∷ [], between)
    else if eqb ch b']'
    then (right_bracket ∷ [], between)
    else if eqb ch b':'
    then (colon ∷ [], between)
    else if eqb ch b','
    then (comma ∷ [], between)
    else if eqb ch b'"'
    then ([], in_string plain [])
    else if is_letter ch
    then ([], in_word (ch ∷ []))
    else if eqb ch b'-' || is_digit ch
    then ([], in_number_at (number_step at_sign ch) (ch ∷ []))
    else (bad ∷ [], between)

abbrev pub hex_digit : ℕ → Option ℕ
hex_digit ch =
    if is_digit ch
    then some (ch - b'0')
    else if leb b'a' ch && leb ch b'f'
    then some (ch - b'a' + 10)
    else if leb b'A' ch && leb ch b'F'
    then some (ch - b'A' + 10)
    else none

-- A byte of a string: it goes on, with a piece or none, or ends, or is an error.
abbrev pub escaped : ℕ → Option ℕ
escaped ch =
    if eqb ch b'"' || (eqb ch 92 || eqb ch b'/')
    then some ch
    else if eqb ch b'b'
    then some 8
    else if eqb ch b'f'
    then some 12
    else if eqb ch b'n'
    then some 10
    else if eqb ch b'r'
    then some 13
    else if eqb ch b't'
    then some 9
    else none

abbrev pub in_hex : ℕ → ℕ → List Piece → Option ℕ → List Token × LexState
in_hex left value pieces none = (bad ∷ [], between)
in_hex zero value pieces (some d) = (bad ∷ [], between)
in_hex (suc zero) value pieces (some d) =
    ([], in_string plain (pieces ++ unit (value * 16 + d) ∷ []))
in_hex (suc (suc left)) value pieces (some d) =
    ([], in_string (hex (suc left) (value * 16 + d)) pieces)

abbrev pub in_escape : List Piece → Option ℕ → List Token × LexState
in_escape pieces none = (bad ∷ [], between)
in_escape pieces (some ch) = ([], in_string plain (pieces ++ unit ch ∷ []))

unfoldable pub string_step : StringState → List Piece → ℕ → List Token × LexState
unfolding unquote
string_step plain pieces ch =
    if eqb ch b'"'
    then (string (unquote pieces) ∷ [], between)
    else if eqb ch 92
    then ([], in_string escaping pieces)
    else if ltb ch 32
    then (bad ∷ [], between)
    else ([], in_string plain (pieces ++ raw ch ∷ []))
string_step escaping pieces ch =
    if eqb ch b'u' then ([], in_string (hex 4 0) pieces) else in_escape pieces (escaped ch)
string_step (hex left value) pieces ch = in_hex left value pieces (hex_digit ch)

abbrev pub flushed : LexState → List Token × LexState → List Token × LexState
flushed state (tokens, next) = (flush state ++ tokens, next)

unfoldable pub lex_step : LexState → ℕ → List Token × LexState
unfolding open_token string_step number_step
lex_step between ch = open_token ch
lex_step (in_string s pieces) ch = string_step s pieces ch
lex_step (in_number_at s text) ch =
    if in_number ch
    then ([], in_number_at (number_step s ch) (text ++ ch ∷ []))
    else flushed (in_number_at s text) (open_token ch)
lex_step (in_word text) ch =
    if is_letter ch then ([], in_word (text ++ ch ∷ [])) else flushed (in_word text) (open_token ch)

-- The tokens of a text; an error is the token `bad`, and nothing after it is looked at.
unfoldable pub lex : LexState → Bytes → List Token
lex state [] = flush state
lex state (ch ∷ text) = let (tokens, next) = lex_step state ch in tokens ++ lex next text
