-- ===== src/Config/Decode.antt =====
-- cmd/config/config.go: what `Decode(&config)` does to the fields of the configuration. A value of
-- the wrong type leaves its field alone, and the decoder goes on; it reports the first such error
-- at the end.
use garden_evm_watcher.Common.{
  ℕ, zero, suc, ◌-◌, ◌^◌, ℤ, pos, negsuc, Bool, true, false, ltb, leb, eqb, ◌&&◌, if◌then◌else◌,
  Bytes, ascii, bytes_comparable, ◌==◌, [], ◌∷◌, Option, none, some, Dict, insert, external, Error,
  uint64_mod,
}
use garden_evm_watcher.Model.BigInt.{set_from, scan_base10}
use garden_evm_watcher.Config.{ChainConfig, Config}
use garden_evm_watcher.Json.Parse.{
  JsonValue, null, number, string, object, JsonFields, no_fields, field, parse_json,
}

abbrev pub starts : Bytes → Bytes → Bool
starts [] text = true
starts (ch ∷ prefix) [] = false
starts (ch ∷ prefix) (next ∷ text) = eqb ch next && starts prefix text

-- A letter as the decoder compares it, and how many bytes of it are left: upper and lower case are
-- one, and U+017F and U+212A fold to the letters s and k.
abbrev pub fold_step : ℕ → Bytes → ℕ × ℕ
fold_step ch text =
    if leb b'a' ch && leb ch b'z'
    then (ch - 32, 0)
    else if eqb ch 197 && starts (191 ∷ []) text
    then (b'S', 1)
    else if eqb ch 226 && starts (132 ∷ 170 ∷ []) text
    then (b'K', 2)
    else (ch, 0)

unfoldable pub fold_from : ℕ → Bytes → Bytes
fold_from n [] = []
fold_from (suc n) (ch ∷ text) = fold_from n text
fold_from zero (ch ∷ text) = let (letter, n) = fold_step ch text in letter ∷ fold_from n text

-- Does the key of an object name the field?
abbrev pub names : Bytes → Bytes → Bool
names name key = fold_from 0 key == fold_from 0 name

-- What a step leaves, and the error that it saves.
abbrev pub Saving : Type 0 → Type 0
Saving A = A × Option Error

abbrev pub type_error : Error
type_error = external (ascii "json: cannot unmarshal")

abbrev pub first_error : Option Error → Option Error → Option Error
first_error none e = e
first_error (some e) _ = some e

-- The next step, and the first of both errors.
abbrev pub followed_by : {A B : Type 0} → Saving A → (A → Saving B) → Saving B
followed_by (a, e) k = let (b, e') = k a in (b, first_error e e')

abbrev pub decode_string : JsonValue → Bytes → Saving Bytes
decode_string null old = (old, none)
decode_string (string s) old = (s, none)
decode_string _ old = (old, some type_error)

-- What a reader of numbers gives.
abbrev pub read_number : {A : Type 0} → (Bytes → Option A) → JsonValue → A → Saving A
read_number read null old = (old, none)
read_number read (number text) old = elim (read text) [
  | none ↦ (old, some type_error)
  | some n ↦ (n, none)
]
read_number read _ old = (old, some type_error)

-- strconv.ParseUint(text, 10, 64) and strconv.ParseInt(text, 10, 64), on the text of a JSON number
abbrev pub all_digits : Option (ℕ × Bytes) → Option ℕ
all_digits (some (n, [])) = if ltb n uint64_mod then some n else none
all_digits _ = none

unfoldable pub parse_uint : Bytes → Option ℕ
parse_uint text = all_digits (scan_base10 text)

abbrev pub in_int64 : Option ℤ → Option ℤ
in_int64 none = none
in_int64 (some (pos n)) = if ltb n (2 ^ 63) then some (pos n) else none
in_int64 (some (negsuc n)) = if ltb n (2 ^ 63) then some (negsuc n) else none

unfoldable pub parse_int : Bytes → Option ℤ
parse_int text = in_int64 (set_from scan_base10 text)

-- Each key is assigned what its value makes of a zero value; a later one replaces it.
unfoldable pub decode_entries :
    {A : Type 0}
    → A
    → (JsonValue → A → Saving A)
    → JsonFields
    → Dict Bytes A
    → Saving (Dict Bytes A)
decode_entries zero_value decode no_fields old = (old, none)
decode_entries zero_value decode (field fields key v) old =
    followed_by (decode_entries zero_value decode fields old)
      λ table. followed_by (decode v zero_value) λ a. (insert key a table, none)

-- A map: null empties it, an object adds to it.
abbrev pub decode_map :
    {A : Type 0} → A → (JsonValue → A → Saving A) → JsonValue → Dict Bytes A → Saving (Dict Bytes A)
decode_map zero_value decode null old = ([], none)
decode_map zero_value decode (object fields) old = decode_entries zero_value decode fields old
decode_map zero_value decode _ old = (old, some type_error)

-- A struct: every key that names a field, in order.
unfoldable pub decode_fields :
    {A : Type 0} → (Bytes → JsonValue → A → Saving A) → JsonFields → A → Saving A
decode_fields assign no_fields old = (old, none)
decode_fields assign (field fields key v) old =
    followed_by (decode_fields assign fields old) (assign key v)

abbrev pub decode_struct :
    {A : Type 0} → (Bytes → JsonValue → A → Saving A) → JsonValue → A → Saving A
decode_struct assign null old = (old, none)
decode_struct assign (object fields) old = decode_fields assign fields old
decode_struct assign _ old = (old, some type_error)

unfoldable pub assign_chain : Bytes → JsonValue → ChainConfig → Saving ChainConfig
assign_chain key v c =
    if names (ascii "Contracts") key
    then followed_by (decode_map [] decode_string v c.contracts)
        (λ x. (record c { contracts = x }, none))
    else if names (ascii "Url") key
    then followed_by (decode_string v c.url) (λ x. (record c { url = x }, none))
    else if names (ascii "StartBlock") key
    then followed_by (read_number parse_uint v c.start_block)
        (λ x. (record c { start_block = x }, none))
    else if names (ascii "MaxBlockSpan") key
    then followed_by (read_number parse_uint v c.max_block_span)
        (λ x. (record c { max_block_span = x }, none))
    else if names (ascii "PollingInterval") key
    then followed_by (read_number parse_int v c.polling_interval)
        (λ x. (record c { polling_interval = x }, none))
    else (c, none)

-- Go's zero values.
abbrev pub zero_chain : ChainConfig
zero_chain = record {
  contracts = [];
  url = [];
  start_block = 0;
  max_block_span = 0;
  polling_interval = pos 0;
}

abbrev pub zero_config : Config
zero_config = record { psql_db = []; chains = [] }

unfoldable pub assign_config : Bytes → JsonValue → Config → Saving Config
unfolding assign_chain
assign_config key v c =
    if names (ascii "PsqlDb") key
    then followed_by (decode_string v c.psql_db) (λ x. (record c { psql_db = x }, none))
    else if names (ascii "Chains") key
    then followed_by (decode_map zero_chain (decode_struct assign_chain) v c.chains)
        (λ x. (record c { chains = x }, none))
    else (c, none)

abbrev pub decode_value : Option JsonValue → Saving Config
decode_value none = (zero_config, some (external (ascii "invalid JSON")))
decode_value (some v) = decode_struct assign_config v zero_config

-- json.NewDecoder(configFile).Decode(&config): the text is read first; if it is not JSON, no field
-- is assigned.
unfoldable pub decode_config : Bytes → Saving Config
unfolding assign_config decode_fields
decode_config text = decode_value (parse_json text)
