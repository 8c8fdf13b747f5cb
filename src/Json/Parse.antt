-- ===== src/Json/Parse.antt =====
-- The values of encoding/json: its scanner keeps a stack of the arrays and objects it is in.
use garden_evm_watcher.Common.{
  Bool, true, false, ltb, if◌then◌else◌, Bytes, List, [], ◌∷◌, Option, none, some, length,
}
use garden_evm_watcher.Json.{
  Token, left_brace, right_brace, left_bracket, right_bracket, colon, comma, null_word, true_word,
  false_word, between, lex,
}

mutual
  pub data JsonValue : Type 0 where
    null : JsonValue
    boolean : Bool → JsonValue
    number : Bytes → JsonValue
    string : Bytes → JsonValue
    array : JsonItems → JsonValue
    object : JsonFields → JsonValue

  pub data JsonItems : Type 0 where
    no_items : JsonItems
    item : JsonItems → JsonValue → JsonItems

  -- The last field is outermost: an object grows at its end.
  pub data JsonFields : Type 0 where
    no_fields : JsonFields
    field : JsonFields → Bytes → JsonValue → JsonFields

-- An array or an object that is not closed yet, with the key of the value to come.
pub data Frame : Type 0 where
  in_array : JsonItems → Frame
  in_object : JsonFields → Bytes → Frame

-- What the next token can be: a value; one, or the end of an empty array; a key, or the end of an
-- empty object; a key; the colon; or, after a value, what is around it.
pub data Expect : Type 0 where
  a_value : Expect
  first_item : Expect
  first_key : Expect
  a_key : JsonFields → Expect
  a_colon : JsonFields → Bytes → Expect
  after_value : JsonValue → Expect

pub data Next : Type 0 where
  goes_on : Expect → List Frame → Next
  finished : JsonValue → Next
  fails : Next

-- A value is complete: at the outside, the text after it is not read.
abbrev pub completed : JsonValue → List Frame → Next
completed v [] = finished v
completed v (frame ∷ stack) = goes_on (after_value v) (frame ∷ stack)

-- maxNestingDepth
abbrev pub nested : List Frame → Next → Next
nested stack next = if ltb (length stack) 10000 then next else fails

-- The frame of an object appears with its first key.
abbrev pub value_step : List Frame → Token → Next
value_step stack null_word = completed null stack
value_step stack true_word = completed (boolean true) stack
value_step stack false_word = completed (boolean false) stack
value_step stack (Token.number text) = completed (number text) stack
value_step stack (Token.string text) = completed (string text) stack
value_step stack left_bracket = nested stack (goes_on first_item stack)
value_step stack left_brace = nested stack (goes_on first_key stack)
value_step stack _ = fails

abbrev pub after_step : JsonValue → List Frame → Token → Next
after_step v (in_array items ∷ stack) comma = goes_on a_value (in_array (item items v) ∷ stack)
after_step v (in_array items ∷ stack) right_bracket = completed (array (item items v)) stack
after_step v (in_object fields key ∷ stack) comma = goes_on (a_key (field fields key v)) stack
after_step v (in_object fields key ∷ stack) right_brace =
    completed (object (field fields key v)) stack
after_step v _ _ = fails

unfoldable pub parse_step : Expect → List Frame → Token → Next
parse_step a_value stack token = value_step stack token
parse_step first_item stack right_bracket = completed (array no_items) stack
parse_step first_item stack token = value_step (in_array no_items ∷ stack) token
parse_step first_key stack right_brace = completed (object no_fields) stack
parse_step first_key stack (Token.string key) = goes_on (a_colon no_fields key) stack
parse_step (a_key fields) stack (Token.string key) = goes_on (a_colon fields key) stack
parse_step (a_colon fields key) stack colon = goes_on a_value (in_object fields key ∷ stack)
parse_step (after_value v) stack token = after_step v stack token
parse_step _ stack token = fails

-- A value, and the tokens behind it.
unfoldable pub parse_from : Expect → List Frame → List Token → Option (JsonValue × List Token)
unfolding parse_step
parse_from expect stack [] = none
parse_from expect stack (token ∷ tokens) = elim (parse_step expect stack token) [
  | goes_on expect' stack' ↦ parse_from expect' stack' tokens
  | finished v ↦ some (v, tokens)
  | fails ↦ none
]

abbrev pub first_value : Option (JsonValue × List Token) → Option JsonValue
first_value none = none
first_value (some (v, tokens)) = some v

-- The first value of a text, as a Decoder reads it.
unfoldable pub parse_json : Bytes → Option JsonValue
unfolding parse_from lex
parse_json text = first_value (parse_from a_value [] (lex between text))

abbrev pub whole : Option (JsonValue × List Token) → Option JsonValue
whole (some (v, [])) = some v
whole _ = none

-- The value of a text that holds nothing else, as json.Unmarshal reads it.
unfoldable pub parse_whole : Bytes → Option JsonValue
unfolding parse_from lex
parse_whole text = whole (parse_from a_value [] (lex between text))
