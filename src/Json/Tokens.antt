-- ===== src/Json/Tokens.antt =====
-- The tokens of a JSON value, and the value that is parsed from them.
use garden_evm_watcher.Common.{
  ℕ, zero, suc, ◌+◌, ◌≤◌, ◌<◌, ◌≡◌, refl, ap, ◌∙◌, Bool, true, false, if◌then◌else◌, lt→ltb, List,
  [], ◌∷◌, ◌++◌, append_assoc, Option, none, some, length, arith,
}
use garden_evm_watcher.Json.{
  Token, left_brace, right_brace, left_bracket, right_bracket, colon, comma, null_word, true_word,
  false_word,
}
use garden_evm_watcher.Json.Parse.{
  JsonValue, JsonItems, JsonFields, null, boolean, number, string, array, object, no_items, item,
  no_fields, field, Frame, in_array, in_object, Expect, a_value, first_item, first_key, a_key,
  a_colon, after_value, Next, goes_on, finished, fails, completed, nested, parse_step, parse_from,
}

unfoldable mutual
  pub tokens_of : JsonValue → List Token
  tokens_of null = null_word ∷ []
  tokens_of (boolean true) = true_word ∷ []
  tokens_of (boolean false) = false_word ∷ []
  tokens_of (number text) = Token.number text ∷ []
  tokens_of (string text) = Token.string text ∷ []
  tokens_of (array elements) = left_bracket ∷ (item_tokens elements ++ right_bracket ∷ [])
  tokens_of (object members) = left_brace ∷ (field_tokens members ++ right_brace ∷ [])

  pub item_tokens : JsonItems → List Token
  item_tokens no_items = []
  item_tokens (item no_items v) = tokens_of v
  item_tokens (item (item elements u) v) = item_tokens (item elements u) ++ comma ∷ tokens_of v

  pub field_tokens : JsonFields → List Token
  field_tokens no_fields = []
  field_tokens (field no_fields key v) = Token.string key ∷ colon ∷ tokens_of v
  field_tokens (field (field members old u) key v) =
      field_tokens (field members old u) ++ comma ∷ Token.string key ∷ colon ∷ tokens_of v

-- Arrays and objects stand in one another `n` deep at most.
unfoldable mutual
  pub IsNested : ℕ → JsonValue → Type 0
  IsNested zero (array elements) = ⊥
  IsNested (suc n) (array elements) = AreNestedItems n elements
  IsNested zero (object members) = ⊥
  IsNested (suc n) (object members) = AreNestedFields n members
  IsNested n _ = Unit

  pub AreNestedItems : ℕ → JsonItems → Type 0
  AreNestedItems n no_items = Unit
  AreNestedItems n (item elements v) = AreNestedItems n elements × IsNested n v

  pub AreNestedFields : ℕ → JsonFields → Type 0
  AreNestedFields n no_fields = Unit
  AreNestedFields n (field members key v) = AreNestedFields n members × IsNested n v

-- The parser at its next state.
abbrev pub resume : Next → List Token → Option (JsonValue × List Token)
resume (goes_on expect stack) tokens = parse_from expect stack tokens
resume (finished v) tokens = some (v, tokens)
resume fails tokens = none

parse_from-cons :
    (expect : Expect) (stack : List Frame) (token : Token) (tokens : List Token)
    → parse_from expect stack (token ∷ tokens) ≡ resume (parse_step expect stack token) tokens
unfolding parse_from
parse_from-cons expect stack token tokens = by_next (parse_step expect stack token)
  where
    by_next :
        (next : Next)
        → elim next [
          | goes_on expect' stack' ↦ parse_from expect' stack' tokens
          | finished v ↦ some (v, tokens)
          | fails ↦ none
        ]
          ≡ resume next tokens
    by_next (goes_on expect' stack') = refl
    by_next (finished v) = refl
    by_next fails = refl

nested-room : (stack : List Frame) (next : Next) → length stack < 10000 → nested stack next ≡ next
nested-room stack next h =
    ap (λ (b : Bool). if b then next else fails) (lt→ltb (length stack) 10000 h)

-- A value begins in the same way wherever it stands.
first_item-value :
    (v : JsonValue) (stack : List Frame) (rest : List Token)
    → parse_from first_item stack (tokens_of v ++ rest)
      ≡ parse_from a_value (in_array no_items ∷ stack) (tokens_of v ++ rest)
unfolding parse_from parse_step tokens_of
first_item-value null stack rest = refl
first_item-value (boolean true) stack rest = refl
first_item-value (boolean false) stack rest = refl
first_item-value (number text) stack rest = refl
first_item-value (string text) stack rest = refl
first_item-value (array elements) stack rest = refl
first_item-value (object members) stack rest = refl

-- What the parser makes of the elements of an array, and of the members of an object, if any.
abbrev ReadItems : List Frame → List Token → JsonItems → Type 0
ReadItems stack rest no_items = Unit
ReadItems stack rest (item elements v) =
    parse_from first_item stack (item_tokens (item elements v) ++ rest)
    ≡ parse_from (after_value v) (in_array elements ∷ stack) rest

abbrev ReadFields : List Frame → List Token → JsonFields → Type 0
ReadFields stack rest no_fields = Unit
ReadFields stack rest (field members key v) =
    parse_from first_key stack (field_tokens (field members key v) ++ rest)
    ≡ parse_from (after_value v) (in_object members key ∷ stack) rest

mutual
  unfolding parse_step tokens_of IsNested

  pub parse-tokens_of :
      (v : JsonValue) (n : ℕ) (stack : List Frame) (rest : List Token)
      → IsNested n v
      → length stack + n ≤ 10000
      → parse_from a_value stack (tokens_of v ++ rest) ≡ resume (completed v stack) rest
  parse-tokens_of null n stack rest h k = parse_from-cons a_value stack null_word rest
  parse-tokens_of (boolean true) n stack rest h k = parse_from-cons a_value stack true_word rest
  parse-tokens_of (boolean false) n stack rest h k = parse_from-cons a_value stack false_word rest
  parse-tokens_of (number text) n stack rest h k =
      parse_from-cons a_value stack (Token.number text) rest
  parse-tokens_of (string text) n stack rest h k =
      parse_from-cons a_value stack (Token.string text) rest
  parse-tokens_of (array elements) zero stack rest h k = absurd h
  parse-tokens_of (object members) zero stack rest h k = absurd h
  parse-tokens_of (array no_items) (suc n) stack rest h k =
      parse_from-cons a_value stack left_bracket (right_bracket ∷ rest)
      ∙ ap (λ next. resume next (right_bracket ∷ rest))
          (nested-room stack (goes_on first_item stack) (omega (arith, k)))
      ∙ parse_from-cons first_item stack right_bracket rest
  parse-tokens_of (array (item elements v)) (suc n) stack rest h k =
      parse_from-cons a_value stack left_bracket _
      ∙ ap (λ next. resume next ((item_tokens (item elements v) ++ right_bracket ∷ []) ++ rest))
          (nested-room stack (goes_on first_item stack) (omega (arith, k)))
      ∙ ap (parse_from first_item stack)
          (append_assoc (item_tokens (item elements v)) (right_bracket ∷ []) rest)
      ∙ parse-item_tokens (item elements v) n stack (right_bracket ∷ rest) h (omega (arith, k))
      ∙ parse_from-cons (after_value v) (in_array elements ∷ stack) right_bracket rest
  parse-tokens_of (object no_fields) (suc n) stack rest h k =
      parse_from-cons a_value stack left_brace (right_brace ∷ rest)
      ∙ ap (λ next. resume next (right_brace ∷ rest))
          (nested-room stack (goes_on first_key stack) (omega (arith, k)))
      ∙ parse_from-cons first_key stack right_brace rest
  parse-tokens_of (object (field members key v)) (suc n) stack rest h k =
      parse_from-cons a_value stack left_brace _
      ∙ ap (λ next. resume next ((field_tokens (field members key v) ++ right_brace ∷ []) ++ rest))
          (nested-room stack (goes_on first_key stack) (omega (arith, k)))
      ∙ ap (parse_from first_key stack)
          (append_assoc (field_tokens (field members key v)) (right_brace ∷ []) rest)
      ∙ parse-field_tokens (field members key v) n stack (right_brace ∷ rest) h (omega (arith, k))
      ∙ parse_from-cons (after_value v) (in_object members key ∷ stack) right_brace rest

  parse-item_tokens :
      (items : JsonItems) (n : ℕ) (stack : List Frame) (rest : List Token)
      → AreNestedItems n items
      → length stack + suc n ≤ 10000
      → ReadItems stack rest items
  parse-item_tokens no_items n stack rest h k = tt
  parse-item_tokens (item no_items v) n stack rest h k =
      first_item-value v stack rest
      ∙ parse-tokens_of v n (in_array no_items ∷ stack) rest h.1 (omega (arith, k))
  parse-item_tokens (item (item elements u) v) n stack rest h k =
      ap (parse_from first_item stack)
        (append_assoc (item_tokens (item elements u)) (comma ∷ tokens_of v) rest)
      ∙ parse-item_tokens (item elements u) n stack (comma ∷ tokens_of v ++ rest) h.0 k
      ∙ parse_from-cons (after_value u) (in_array elements ∷ stack) comma (tokens_of v ++ rest)
      ∙ parse-tokens_of v n (in_array (item elements u) ∷ stack) rest h.1 (omega (arith, k))

  parse-field_tokens :
      (fields : JsonFields) (n : ℕ) (stack : List Frame) (rest : List Token)
      → AreNestedFields n fields
      → length stack + suc n ≤ 10000
      → ReadFields stack rest fields
  parse-field_tokens no_fields n stack rest h k = tt
  parse-field_tokens (field no_fields key v) n stack rest h k =
      parse_from-cons first_key stack (Token.string key) _
      ∙ parse_from-cons (a_colon no_fields key) stack colon _
      ∙ parse-tokens_of v n (in_object no_fields key ∷ stack) rest h.1 (omega (arith, k))
  parse-field_tokens (field (field members old u) key v) n stack rest h k =
      ap (parse_from first_key stack) (
        append_assoc (field_tokens (field members old u))
          (comma ∷ Token.string key ∷ colon ∷ tokens_of v) rest)
      ∙ parse-field_tokens (field members old u) n stack
          (comma ∷ Token.string key ∷ colon ∷ tokens_of v ++ rest) h.0 k
      ∙ parse_from-cons (after_value u) (in_object members old ∷ stack) comma _
      ∙ parse_from-cons (a_key (field members old u)) stack (Token.string key) _
      ∙ parse_from-cons (a_colon (field members old u) key) stack colon _
      ∙ parse-tokens_of v n (in_object (field members old u) key ∷ stack) rest h.1
          (omega (arith, k))
