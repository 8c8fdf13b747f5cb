-- ===== src/Model/BigInt/Numerals.antt =====
-- The texts that a `BigInt` is read from in base 10.
use garden_evm_watcher.Common.{
  ℕ, ◌+◌, ◌≡◌, ◌↔◌, refl, sym, ap, ap₂, ◌∙◌, inl, inr, ℤ, pos, negate, eqb, eqb_iff, if◌then◌else◌,
  false, Bytes, List, [], ◌∷◌, Option, none, some, arith, ok, err, refl, Option-cases,
  invalid_big_int, Bool-cases,
}
use garden_evm_watcher.Json.Parse.{string, parse_whole}
use garden_evm_watcher.Model.BigInt.JsonText.{string_in, assigned, with_string, unmarshal_json}
use garden_evm_watcher.Model.BigInt.Digits.{
  digit_chars, positional, Digits, read-Digits, Digits-read,
}
use garden_evm_watcher.Model.Rows.{BigInt}
use garden_evm_watcher.Model.BigInt.{scan_base10, set_from, or_zero}

-- A sign or none, and digits.
pub data Numeral (text : Bytes) (z : ℤ) : Type 0 where
  unsigned :
      (ds : List ℕ) → Digits ds → text ≡ digit_chars ds → z ≡ pos (positional ds) → Numeral text z
  plus :
      (ds : List ℕ)
      → Digits ds
      → text ≡ b'+' ∷ digit_chars ds
      → z ≡ pos (positional ds)
      → Numeral text z
  minus :
      (ds : List ℕ)
      → Digits ds
      → text ≡ b'-' ∷ digit_chars ds
      → z ≡ negate (positional ds)
      → Numeral text z

-- Neither sign is a digit.
set_from-Digits :
    (ds : List ℕ) → Digits ds → set_from scan_base10 (digit_chars ds) ≡ some (pos (positional ds))
unfolding set_from
set_from-Digits [] d = absurd (d.1 refl)
set_from-Digits (c ∷ cs) d =
    let not_minus : eqb (b'0' + c) b'-' ≡ false = ground arith in
    let not_plus : eqb (b'0' + c) b'+' ≡ false = ground arith in
    rw (not_minus, not_plus, if◌then◌else◌, set_from) (read-Digits pos (c ∷ cs) d)

pub set_from-Numeral : (text : Bytes) (z : ℤ) → Numeral text z → set_from scan_base10 text ≡ some z
unfolding set_from
set_from-Numeral text z (unsigned ds d t e) =
    ap (set_from scan_base10) t ∙ set_from-Digits ds d ∙ ap some (sym e)
set_from-Numeral text z (plus ds d t e) =
    ap (set_from scan_base10) t ∙ read-Digits pos ds d ∙ ap some (sym e)
set_from-Numeral text z (minus ds d t e) =
    ap (set_from scan_base10) t ∙ read-Digits negate ds d ∙ ap some (sym e)

Numeral-set_from : (text : Bytes) (z : ℤ) → set_from scan_base10 text ≡ some z → Numeral text z
unfolding set_from
Numeral-set_from [] z e = cc
Numeral-set_from (ch ∷ text) z e = elim (Bool-cases (eqb ch b'-')) [
  | inl negative ↦
      let (ds, d, t, v) = Digits-read negate text z (rw (negative, if◌then◌else◌, set_from) at e) in
      minus ds d (ap₂ ◌∷◌ ((eqb_iff ch b'-').0 negative) t) v
  | inr not_minus ↦ elim (Bool-cases (eqb ch b'+')) [
    | inl positive ↦
        let (ds, d, t, v) =
          Digits-read pos text z (rw (not_minus, positive, if◌then◌else◌, set_from) at e) in
        plus ds d (ap₂ ◌∷◌ ((eqb_iff ch b'+').0 positive) t) v
    | inr not_plus ↦
        let (ds, d, t, v) =
          Digits-read pos (ch ∷ text) z (rw (not_minus, not_plus, if◌then◌else◌, set_from) at e) in
        unsigned ds d t v
  ]
]

assigned-ok : (r : Option ℤ) (z : ℤ) → (assigned r ≡ (ok tt, some z)) ↔ (r ≡ some z)
assigned-ok none z = ((λ e. cc), (λ e. cc))
assigned-ok (some y) z = ((λ e. cc), (λ e. cc))

-- An empty string counts as the digit 0.
abbrev pub counted : Bytes → Bytes
counted [] = b'0' ∷ []
counted (ch ∷ s) = ch ∷ s

or_zero-counted : (s : Bytes) → or_zero s ≡ counted s
or_zero-counted [] = refl
or_zero-counted (ch ∷ s) = refl

unmarshal_json-string :
    (text s : Bytes) (old : BigInt)
    → parse_whole text ≡ some (string s)
    → unmarshal_json text old ≡ assigned (set_from scan_base10 (counted s))
unfolding unmarshal_json
unmarshal_json-string text s old e =
    ap (λ v. with_string (string_in v) old) e
    ∙ ap (λ t. assigned (set_from scan_base10 t)) (or_zero-counted s)

-- UnmarshalJSON of a text that is a JSON string, an empty one counting as "0", succeeds with a
-- number exactly if the string is a sign or none and then decimal digits, one at least, with this
-- number as their positional value.
pub unmarshal_json-Numeral :
    (text s : Bytes) (old : BigInt) (z : ℤ)
    → parse_whole text ≡ some (string s)
    → (unmarshal_json text old ≡ (ok tt, some z)) ↔ Numeral (counted s) z
unmarshal_json-Numeral text s old z e =
    let (read, assigns) = assigned-ok (set_from scan_base10 (counted s)) z in
    let same = unmarshal_json-string text s old e in
    (
      (λ r. Numeral-set_from (counted s) z (read (sym same ∙ r))),
      (λ n. same ∙ assigns (set_from-Numeral (counted s) z n)),
    )

-- UnmarshalJSON of a text that is a JSON string, an empty one counting as "0", which is not a sign
-- or none and then decimal digits, one at least: it returns the error about the number and leaves
-- nil.
pub unmarshal_json-rejects :
    (text s : Bytes) (old : BigInt)
    → parse_whole text ≡ some (string s)
    → ((z : ℤ) → ¬ Numeral (counted s) z)
    → unmarshal_json text old ≡ (err invalid_big_int, none)
unmarshal_json-rejects text s old e no_numeral =
    unmarshal_json-string text s old e ∙ elim (Option-cases (set_from scan_base10 (counted s))) [
      | inl bad ↦ ap assigned bad
      | inr (z, good) ↦ absurd (no_numeral z (Numeral-set_from (counted s) z good))
    ]
