-- ===== src/Config/Print/Printable.antt =====
-- Values that can be printed without an escape.
use garden_evm_watcher.Common.{ℕ, true, false, Bytes, List, [], ◌∷◌, ◌++◌, Dict, All}
use garden_evm_watcher.Json.{Token, comma, colon, right_brace, right_bracket}
use garden_evm_watcher.Json.Parse.{
  JsonValue, JsonItems, JsonFields, null, boolean, number, string, array, object, no_items, item,
  no_fields, field,
}
use garden_evm_watcher.Config.Print.{entries_after}
use garden_evm_watcher.Json.Tokens.{tokens_of, item_tokens, field_tokens, IsNested, AreNestedFields}
use garden_evm_watcher.Json.Write.{IsPlain, IsNumber, IsPrintable}

unfoldable mutual
  pub HasText : JsonValue → Type 0
  HasText (number text) = IsNumber text
  HasText (string text) = All IsPlain text
  HasText (array elements) = HaveTextItems elements
  HasText (object members) = HaveTextFields members
  HasText _ = Unit

  pub HaveTextItems : JsonItems → Type 0
  HaveTextItems no_items = Unit
  HaveTextItems (item elements v) = HaveTextItems elements × HasText v

  pub HaveTextFields : JsonFields → Type 0
  HaveTextFields no_fields = Unit
  HaveTextFields (field members key v) = HaveTextFields members × (All IsPlain key × HasText v)

All-append :
    (xs ys : List Token) → All IsPrintable xs → All IsPrintable ys → All IsPrintable (xs ++ ys)
All-append [] ys h k = k
All-append (x ∷ xs) ys h k = (h.0, All-append xs ys h.1 k)

mutual
  unfolding HasText tokens_of

  pub tokens_of-IsPrintable : (v : JsonValue) → HasText v → All IsPrintable (tokens_of v)
  tokens_of-IsPrintable null h = (tt, tt)
  tokens_of-IsPrintable (boolean true) h = (tt, tt)
  tokens_of-IsPrintable (boolean false) h = (tt, tt)
  tokens_of-IsPrintable (number text) h = (h, tt)
  tokens_of-IsPrintable (string text) h = (h, tt)
  tokens_of-IsPrintable (array elements) h = (
    tt,
    All-append (item_tokens elements) (right_bracket ∷ []) (item_tokens-IsPrintable elements h)
        (tt, tt),
  )
  tokens_of-IsPrintable (object members) h = (
    tt,
    All-append (field_tokens members) (right_brace ∷ []) (field_tokens-IsPrintable members h)
        (tt, tt),
  )

  item_tokens-IsPrintable :
      (elements : JsonItems) → HaveTextItems elements → All IsPrintable (item_tokens elements)
  item_tokens-IsPrintable no_items h = tt
  item_tokens-IsPrintable (item no_items v) h = tokens_of-IsPrintable v h.1
  item_tokens-IsPrintable (item (item elements u) v) h =
      All-append (item_tokens (item elements u)) (comma ∷ tokens_of v)
        (item_tokens-IsPrintable (item elements u) h.0) (tt, tokens_of-IsPrintable v h.1)

  field_tokens-IsPrintable :
      (members : JsonFields) → HaveTextFields members → All IsPrintable (field_tokens members)
  field_tokens-IsPrintable no_fields h = tt
  field_tokens-IsPrintable (field no_fields key v) h = (h.1.0, (tt, tokens_of-IsPrintable v h.1.1))
  field_tokens-IsPrintable (field (field members old u) key v) h =
      All-append (field_tokens (field members old u))
        (comma ∷ Token.string key ∷ colon ∷ tokens_of v)
        (field_tokens-IsPrintable (field members old u) h.0)
        (tt, (h.1.0, (tt, tokens_of-IsPrintable v h.1.1)))

-- The entries of a map: their keys and values have a text, and are not nested too deep.
pub entries_after-HasText :
    {A : Type 0} (print : A → JsonValue) (n : ℕ) (members : JsonFields) (table : Dict Bytes A)
    → All
        (λ (p : Bytes × A). All IsPlain p.0 × (HasText (print p.1) × IsNested n (print p.1)))
        table
    → HaveTextFields members × AreNestedFields n members
    → HaveTextFields (entries_after print members table)
      × AreNestedFields n (entries_after print members table)
unfolding HasText IsNested
entries_after-HasText print n members [] all h = h
entries_after-HasText print n members ((key, a) ∷ table) ((k, (t, i)), all) (h, g) =
    entries_after-HasText print n (field members key (print a)) table all ((h, (k, t)), (g, i))
