-- ===== src/Model/BigInt/Unmarshal.antt =====
-- What UnmarshalJSON makes of a text, and the round trip of a `BigInt` through JSON.
use garden_evm_watcher.Common.{
  ℕ, suc, ◌≡◌, refl, ap, ◌∙◌, ℤ, pos, negsuc, Bytes, [], ◌∷◌, none, some, ok, All, All-map, arith,
}
use garden_evm_watcher.Json.{lex}
use garden_evm_watcher.Json.Parse.{string, a_value, parse_step, parse_from, whole, parse_whole}
use garden_evm_watcher.Json.Write.{IsPlain, lex-string}
use garden_evm_watcher.Model.Rows.{BigInt}
use garden_evm_watcher.Model.BigInt.{
  set_from, scan_base10, scan_digits, finish_scan, classify, decimal, digits_of,
}
use garden_evm_watcher.Model.BigInt.Text.{
  set_from-decimal, scan_base10-digits_of, IsDigit, digits_of-IsDigit,
}
use garden_evm_watcher.Model.BigInt.JsonText.{
  quoted, marshal_json, unmarshal_json, string_in, assigned, with_string,
}
use garden_evm_watcher.Model.BigInt.Conversions.{or_zero-read}

-- A nil BigInt stands for zero.
abbrev pub or_nil : BigInt → ℤ
or_nil none = pos 0
or_nil (some z) = z

IsDigit-IsPlain : (ch : ℕ) → IsDigit ch → IsPlain ch
IsDigit-IsPlain ch h = ground arith

decimal-IsPlain : (z : ℤ) → All IsPlain (decimal z)
unfolding decimal
decimal-IsPlain (pos n) =
    All-map IsDigit IsPlain (digits_of (suc n) n) IsDigit-IsPlain
      (digits_of-IsDigit (suc n) n (omega arith))
decimal-IsPlain (negsuc n) = (
  ground arith,
  All-map IsDigit IsPlain (digits_of (suc (suc n)) (suc n)) IsDigit-IsPlain
      (digits_of-IsDigit (suc (suc n)) (suc n) (omega arith)),
)

parse_whole-quoted :
    (text : Bytes) → All IsPlain text → parse_whole (quoted text) ≡ some (string text)
unfolding parse_whole parse_from parse_step
parse_whole-quoted text h =
    ap (λ ts. whole (parse_from a_value [] ts)) (lex-string text [] h ∙ (unfold lex in refl))

unmarshal_json-quoted :
    (text : Bytes) (z : ℤ) (old : BigInt)
    → All IsPlain text
    → set_from scan_base10 text ≡ some z
    → unmarshal_json (quoted text) old ≡ (ok tt, some z)
unfolding unmarshal_json
unmarshal_json-quoted text z old h e =
    ap (λ v. with_string (string_in v) old) (parse_whole-quoted text h)
    ∙ ap (λ t. assigned (set_from scan_base10 t)) (or_zero-read scan_base10 text z e)
    ∙ ap assigned e

-- UnmarshalJSON of the text that MarshalJSON gives succeeds with the number, or with zero for a nil
-- pointer, whatever was there before.
pub unmarshal_json-marshal_json :
    (old bi : BigInt) → unmarshal_json (marshal_json bi) old ≡ (ok tt, some (or_nil bi))
unfolding marshal_json
unmarshal_json-marshal_json old none =
    unmarshal_json-quoted (b'0' ∷ []) (pos 0) old (ground arith)
      (unfold set_from scan_base10 scan_digits classify finish_scan in refl)
unmarshal_json-marshal_json old (some z) =
    unmarshal_json-quoted (decimal z) z old (decimal-IsPlain z)
      (set_from-decimal scan_base10 scan_base10-digits_of z)
