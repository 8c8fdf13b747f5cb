-- ===== src/Model/Tests.antt =====
-- Conversions of a `BigInt` on concrete texts.
use Prim.Native.String.{String}
use garden_evm_watcher.Common.{
  ℤ, pos, negsuc, ◌≡◌, ◌↔◌, refl, Bytes, ascii, none, some, ok, err, invalid_big_int, external,
  ◌++◌,
}
use garden_evm_watcher.Model.BigInt.{
  Scannable, DriverValue, scan, value, unmarshal_text, set_from, scan_base0, scan_base10,
  scan_prefixed, scan_digits, finish_scan, classify, decimal, digits_of,
}
use garden_evm_watcher.Model.BigInt.Numerals.{
  Numeral, set_from-Numeral, unmarshal_json-Numeral, unmarshal_json-rejects,
}
use garden_evm_watcher.Json.{lex, lex_step, open_token, string_step, number_step}
use garden_evm_watcher.Json.Text.{unquote, unquote_from, unquote_step, rune_tail}
use garden_evm_watcher.Json.Parse.{JsonValue, parse_from, parse_step, parse_whole}
use garden_evm_watcher.Model.BigInt.JsonText.{quoted, marshal_json, unmarshal_json}
use garden_evm_watcher.Model.BigInt.Unmarshal.{unmarshal_json-marshal_json}
use garden_evm_watcher.Model.BigInt.Conversions.{scan-value}

abbrev undefined : Bytes → ℤ
undefined text = pos 0

abbrev Scans : String → ℤ → Type 0
Scans text z = scan undefined (Scannable.string (ascii text)) ≡ (ok tt, some z)

-- The column of a decimal never has such a text, but a caller of Scan can.
scan_octal : Scans "010" (pos 8)
unfolding scan unmarshal_text set_from scan_base0 scan_prefixed scan_digits finish_scan classify
scan_octal = refl

scan_hexadecimal : Scans "0x1F" (pos 31)
unfolding scan unmarshal_text set_from scan_base0 scan_prefixed scan_digits finish_scan classify
scan_hexadecimal = refl

scan_separators : Scans "-1_000" (negsuc 999)
unfolding scan unmarshal_text set_from scan_base0 scan_prefixed scan_digits finish_scan classify
scan_separators = refl

no_octal_digit : set_from scan_base0 (ascii "09") ≡ none
unfolding set_from scan_base0 scan_prefixed scan_digits finish_scan classify
no_octal_digit = refl

unmarshal_leading_zero : unmarshal_json (quoted (ascii "010")) none ≡ (ok tt, some (pos 10))
unfolding unmarshal_json parse_whole parse_from parse_step lex lex_step open_token string_step
    number_step unquote unquote_from unquote_step rune_tail set_from scan_base10 scan_digits
    finish_scan classify
unmarshal_leading_zero = refl

unmarshal_hexadecimal :
    unmarshal_json (quoted (ascii "0x1F")) (some (pos 3)) ≡ (err invalid_big_int, none)
unfolding unmarshal_json parse_whole parse_from parse_step lex lex_step open_token string_step
    number_step unquote unquote_from unquote_step rune_tail set_from scan_base10 scan_digits
    finish_scan classify
unmarshal_hexadecimal = refl

value_text : value (some (negsuc 119)) ≡ DriverValue.string (ascii "-120")
unfolding value decimal digits_of
value_text = refl

scan-value_example :
    (scan undefined (Scannable.string (ascii "-120")) ≡ (ok tt, some (negsuc 119)))
    × (scan undefined (Scannable.bytes (ascii "-120")) ≡ (ok tt, some (negsuc 119)))
scan-value_example = scan-value undefined (negsuc 119) (ascii "-120") value_text

unmarshal_json-marshal_json_example :
    unmarshal_json (marshal_json (some (pos 42))) none ≡ (ok tt, some (pos 42))
unmarshal_json-marshal_json_example = unmarshal_json-marshal_json none (some (pos 42))

minus_ten : parse_whole (quoted (ascii "-010")) ≡ some (JsonValue.string (ascii "-010"))
unfolding parse_whole parse_from parse_step lex lex_step open_token string_step number_step unquote
    unquote_from unquote_step rune_tail
minus_ten = refl

unmarshal_json-Numeral_example :
    (unmarshal_json (quoted (ascii "-010")) none ≡ (ok tt, some (negsuc 9)))
    ↔ Numeral (ascii "-010") (negsuc 9)
unmarshal_json-Numeral_example =
    unmarshal_json-Numeral (quoted (ascii "-010")) (ascii "-010") none (negsuc 9) minus_ten

no_digit : parse_whole (quoted (ascii "12a")) ≡ some (JsonValue.string (ascii "12a"))
unfolding parse_whole parse_from parse_step lex lex_step open_token string_step number_step unquote
    unquote_from unquote_step rune_tail
no_digit = refl

no_number : set_from scan_base10 (ascii "12a") ≡ none
unfolding set_from scan_base10 scan_digits finish_scan classify
no_number = refl

unmarshal_json-rejects_example :
    unmarshal_json (quoted (ascii "12a")) (some (pos 1)) ≡ (err invalid_big_int, none)
unmarshal_json-rejects_example =
    unmarshal_json-rejects (quoted (ascii "12a")) (ascii "12a") (some (pos 1)) no_digit
      (λ z n. cc (no_number, set_from-Numeral (ascii "12a") z n))

-- What is behind the string makes json.Unmarshal fail, and the old number stays.
unmarshal_trailing :
    unmarshal_json (quoted (ascii "12") ++ ascii " 3") (some (pos 1))
    ≡ (err (external (ascii "json: syntax error")), some (pos 1))
unfolding unmarshal_json parse_whole parse_from parse_step lex lex_step open_token string_step
    number_step unquote unquote_from unquote_step rune_tail
unmarshal_trailing = refl
