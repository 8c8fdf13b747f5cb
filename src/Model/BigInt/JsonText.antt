-- ===== src/Model/BigInt/JsonText.antt =====
-- pkg/model/model.go: MarshalJSON and UnmarshalJSON of a `BigInt`.
use garden_evm_watcher.Common.{
  Bytes, ascii, [], ◌∷◌, ◌++◌, Option, none, some, Outcome, ok, err, panic, invalid_big_int,
  external, ℤ,
}
use garden_evm_watcher.Json.Parse.{JsonValue, null, string, parse_whole}
use garden_evm_watcher.Model.Rows.{BigInt}
use garden_evm_watcher.Model.BigInt.{set_from, scan_base10, decimal, or_zero}

-- json.Marshal of a text of digits, in which nothing needs an escape
abbrev pub quoted : Bytes → Bytes
quoted text = b'"' ∷ (text ++ b'"' ∷ [])

unfoldable pub marshal_json : BigInt → Bytes
marshal_json none = quoted (b'0' ∷ [])
marshal_json (some z) = quoted (decimal z)

-- What json.Unmarshal leaves in an empty string, which null leaves as it is, or its error.
abbrev pub string_in : Option JsonValue → Outcome Bytes
string_in none = err (external (ascii "json: syntax error"))
string_in (some null) = ok []
string_in (some (string s)) = ok s
string_in (some _) = err (external (ascii "json: cannot unmarshal into Go value of type string"))

-- bi.Int, ok = new(big.Int).SetString(str, 10)
abbrev pub assigned : Option ℤ → Outcome (Unit {0}) × BigInt
assigned (some z) = (ok tt, some z)
assigned none = (err invalid_big_int, none)

abbrev pub with_string : Outcome Bytes → BigInt → Outcome (Unit {0}) × BigInt
with_string (ok s) bi = assigned (set_from scan_base10 (or_zero s))
with_string (err e) bi = (err e, bi)
with_string (panic p) bi = (panic p, bi)

unfoldable pub unmarshal_json : Bytes → BigInt → Outcome (Unit {0}) × BigInt
unmarshal_json text bi = with_string (string_in (parse_whole text)) bi
