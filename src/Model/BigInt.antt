-- ===== src/Model/BigInt.antt =====
-- pkg/model/model.go: the conversions of a `BigInt`, and what they use of math/big: reading and
-- writing an integer as text.
pub mod Text
pub mod JsonText
pub mod Conversions
pub mod Unmarshal
pub mod Digits
pub mod Numerals
use garden_evm_watcher.Common.{
  ℕ, zero, suc, ◌+◌, ◌-◌, ◌*◌, ◌/◌, ◌%◌, ℤ, pos, negsuc, negate, magnitude, ltb, leb, eqb,
  if◌then◌else◌, Bool, true, false, ◌&&◌, ◌||◌, Bytes, ascii, List, [], ◌∷◌, ◌++◌, Option, none,
  some, Outcome, ok, err, panic, unsupported_big_int, invalid_big_int, external,
}
use garden_evm_watcher.Model.Rows.{BigInt}

-- What a byte is to nat.scan: a digit below the base, a separator, or the end of the number.
pub data Class : Type 0 where
  digit : ℕ → Class
  separator : Class
  stop : Class

abbrev pub below : ℕ → ℕ → Class
below base d = if ltb d base then digit d else stop

-- Letters are digits from 10 on; `_` separates digits in base 0 only.
unfoldable pub classify : ℕ → Bool → ℕ → Class
classify base separated ch =
    if separated && eqb ch b'_'
    then separator
    else if leb b'0' ch && leb ch b'9'
    then below base (ch - b'0')
    else if leb b'a' ch && leb ch b'z'
    then below base (ch - b'a' + 10)
    else if leb b'A' ch && leb ch b'Z'
    then below base (ch - b'A' + 10)
    else stop

-- The loop of nat.scan. `after_digit` and `after_separator` are its `prev`.
pub record Scanned : Type 0 where
  pub value : ℕ
  pub count : ℕ
  pub after_digit : Bool
  pub after_separator : Bool
  pub misplaced : Bool
  pub rest : Bytes

unfoldable pub scan_digits : ℕ → Bool → Scanned → Bytes → Scanned
scan_digits base separated s [] = record s { rest = [] }
scan_digits base separated s (ch ∷ text) = elim (classify base separated ch) [
  | stop ↦ record s { rest = ch ∷ text }
  | separator ↦
      scan_digits base separated
        (record s {
          misplaced = s.misplaced || (if s.after_digit then false else true);
          after_digit = false;
          after_separator = true;
        })
        text
  | digit d ↦
      scan_digits base separated
        (record s {
          value = s.value * base + d;
          count = s.count + 1;
          after_digit = true;
          after_separator = false;
        })
        text
]

abbrev pub nothing_scanned : Scanned
nothing_scanned = record {
  value = 0;
  count = 0;
  after_digit = false;
  after_separator = false;
  misplaced = false;
  rest = [];
}

-- `octal` is the prefix '0', which counts as the number 0 if no digit follows.
unfoldable pub finish_scan : Bool → Scanned → Option (ℕ × Bytes)
finish_scan octal s =
    if s.misplaced || s.after_separator
    then none
    else if eqb s.count 0
    then (if octal then some (0, s.rest) else none)
    else some (s.value, s.rest)

-- After a '0' in base 0: a prefix, or an octal number.
unfoldable pub scan_prefixed : ℕ → Bytes → Option (ℕ × Bytes)
scan_prefixed ch text =
    let s = record nothing_scanned { after_digit = true } in
    if eqb ch b'b' || eqb ch b'B'
    then finish_scan false (scan_digits 2 true s text)
    else if eqb ch b'o' || eqb ch b'O'
    then finish_scan false (scan_digits 8 true s text)
    else if eqb ch b'x' || eqb ch b'X'
    then finish_scan false (scan_digits 16 true s text)
    else finish_scan true (scan_digits 8 true s (ch ∷ text))

-- nat.scan in base 0 and in base 10
unfoldable pub scan_base0 : Bytes → Option (ℕ × Bytes)
scan_base0 [] = none
scan_base0 (ch ∷ []) = finish_scan false (scan_digits 10 true nothing_scanned (ch ∷ []))
scan_base0 (ch ∷ next ∷ text) =
    if eqb ch b'0'
    then scan_prefixed next text
    else finish_scan false (scan_digits 10 true nothing_scanned (ch ∷ next ∷ text))

unfoldable pub scan_base10 : Bytes → Option (ℕ × Bytes)
scan_base10 text = finish_scan false (scan_digits 10 false nothing_scanned text)

-- Int.setFromScanner: a sign, a number, and nothing after it.
abbrev pub all_read : (ℕ → ℤ) → Option (ℕ × Bytes) → Option ℤ
all_read sign (some (n, [])) = some (sign n)
all_read sign _ = none

unfoldable pub set_from : (Bytes → Option (ℕ × Bytes)) → Bytes → Option ℤ
set_from scan [] = none
set_from scan (ch ∷ text) =
    if eqb ch b'-'
    then all_read negate (scan text)
    else if eqb ch b'+'
    then all_read pos (scan text)
    else all_read pos (scan (ch ∷ text))

-- Int.Text(10) and Int.String()
unfoldable pub digits_of : ℕ → ℕ → Bytes
digits_of zero n = []
digits_of (suc fuel) n =
    let before = digits_of fuel (n / 10) in
    if ltb n 10 then (b'0' + n) ∷ [] else before ++ (b'0' + n % 10) ∷ []

unfoldable pub decimal : ℤ → Bytes
decimal (pos n) = digits_of (suc n) n
decimal (negsuc n) = b'-' ∷ digits_of (suc (suc n)) (suc n)

-- What a database driver passes to Scan, and what Value returns. `int64` stands for a value that
-- fits one; `other` is any other type.
pub data Scannable : Type 0 where
  null other : Scannable
  int64 : ℤ → Scannable
  bytes : Bytes → Scannable
  string : Bytes → Scannable

pub data DriverValue : Type 0 where
  string : Bytes → DriverValue
  big_int_pointer : ℤ → DriverValue

-- if v == "" { v = "0" }
abbrev pub or_zero : Bytes → Bytes
or_zero [] = b'0' ∷ []
or_zero (ch ∷ text) = ch ∷ text

-- `undefined` is what a big.Int holds after a text that it could not read: math/big leaves that
-- open. Each function returns its error, and what it leaves in `bi`.
module _ (undefined : Bytes → ℤ) where
  abbrev pub unmarshaled : Bytes → Option ℤ → Outcome (Unit {0}) × BigInt
  unmarshaled text (some z) = (ok tt, some z)
  unmarshaled text none =
      (err (external (ascii "math/big: cannot unmarshal")), some (undefined text))

  -- bi.Int.UnmarshalText
  unfoldable pub unmarshal_text : Bytes → Outcome (Unit {0}) × BigInt
  unmarshal_text text = unmarshaled text (set_from scan_base0 text)

  unfoldable pub scan : Scannable → Outcome (Unit {0}) × BigInt
  scan null = (ok tt, some (pos 0))
  scan (int64 v) = (ok tt, some v)
  scan (bytes v) = unmarshal_text v
  scan (string v) = unmarshal_text (or_zero v)
  scan other = (err unsupported_big_int, some (pos 0))

unfoldable pub value : BigInt → DriverValue
value none = big_int_pointer (pos 0)
value (some z) = DriverValue.string (decimal z)
