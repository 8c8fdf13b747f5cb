-- ===== src/Model/BigInt/Conversions.antt =====
-- The round trip of a `BigInt` through the database.
use garden_evm_watcher.Common.{
  ℕ, ℤ, pos, ◌≡◌, refl, sym, ap, ◌∙◌, inl, inr, Bytes, [], ◌∷◌, Option, none, some, ok,
  Option-cases,
}
use garden_evm_watcher.Model.BigInt.{
  Scannable, DriverValue, scan, value, unmarshal_text, unmarshaled, set_from, scan_base0, decimal,
  or_zero,
}
use garden_evm_watcher.Model.BigInt.Text.{set_from-decimal, scan_base0-digits_of}

-- What Value returns, as a driver hands it to Scan: as a string or as bytes.
abbrev pub returned_string : DriverValue → Option Bytes
returned_string (DriverValue.string s) = some s
returned_string (DriverValue.big_int_pointer z) = none

pub or_zero-read :
    (reader : Bytes → Option (ℕ × Bytes)) (text : Bytes) (z : ℤ)
    → set_from reader text ≡ some z
    → or_zero text ≡ text
unfolding set_from
or_zero-read reader [] z e = cc
or_zero-read reader (ch ∷ text) z e = refl

read_base0 : (z : ℤ) → set_from scan_base0 (decimal z) ≡ some z
read_base0 z = set_from-decimal scan_base0 scan_base0-digits_of z

string_of : DriverValue → Bytes
string_of (DriverValue.string s) = s
string_of (DriverValue.big_int_pointer z) = []

-- Scan of the text that Value gives for a number, as a string or as bytes, succeeds with that
-- number.
pub scan-value :
    (undefined : Bytes → ℤ) (z : ℤ) (text : Bytes)
    → value (some z) ≡ DriverValue.string text
    → (scan undefined (Scannable.string text) ≡ (ok tt, some z))
      × (scan undefined (Scannable.bytes text) ≡ (ok tt, some z))
unfolding value scan unmarshal_text string_of
scan-value undefined z text e =
    let same : decimal z ≡ text = ap string_of e in
    let read : set_from scan_base0 text ≡ some z =
      ap (set_from scan_base0) (sym same) ∙ read_base0 z in
    (
      ap (λ t. unmarshaled undefined t (set_from scan_base0 t))
            (or_zero-read scan_base0 text z read)
          ∙ ap (unmarshaled undefined text) read,
      ap (unmarshaled undefined text) read,
    )

unmarshal_text-settles :
    (undefined : Bytes → ℤ) (text : Bytes) → (z : ℤ) × ((unmarshal_text undefined text).1 ≡ some z)
unfolding unmarshal_text
unmarshal_text-settles undefined text = elim (Option-cases (set_from scan_base0 text)) [
  | inl bad ↦ (undefined text, ap (λ r. (unmarshaled undefined text r).1) bad)
  | inr (z, good) ↦ (z, ap (λ r. (unmarshaled undefined text r).1) good)
]

-- After Scan, also one that failed, the pointer is not nil.
pub scan-settles :
    (undefined : Bytes → ℤ) (v : Scannable) → (z : ℤ) × ((scan undefined v).1 ≡ some z)
unfolding scan
scan-settles undefined Scannable.null = (pos 0, refl)
scan-settles undefined Scannable.other = (pos 0, refl)
scan-settles undefined (Scannable.int64 v) = (v, refl)
scan-settles undefined (Scannable.bytes v) = unmarshal_text-settles undefined v
scan-settles undefined (Scannable.string v) = unmarshal_text-settles undefined (or_zero v)
