-- ===== src/Model/BigInt/Digits.antt =====
-- The texts that are read as a number in base 10, without a sign.
use garden_evm_watcher.Common.{
  ℕ, ◌+◌, ◌*◌, ◌-◌, ◌^◌, ◌<◌, ◌≡◌, ◌≢◌, refl, sym, ap, ap₂, ◌∙◌, ◌⊎◌, inl, inr, ℤ, eqb, leb, ◌&&◌,
  if◌then◌else◌, true, false, Bytes, List, [], ◌∷◌, ◌++◌, append-nil, map, All, length, some, arith,
  Bool-cases,
}
use native.Mathlib.Nat.{pow-suc}
use garden_evm_watcher.Model.BigInt.Text.{classify-digit}
use garden_evm_watcher.Model.BigInt.{
  digit, stop, classify, Scanned, scan_digits, nothing_scanned, finish_scan, scan_base10, all_read,
}

abbrev pub digit_chars : List ℕ → Bytes
digit_chars = map (λ d. b'0' + d)

-- Each digit counts with the power of ten of its place.
abbrev pub positional : List ℕ → ℕ
positional [] = 0
positional (d ∷ ds) = d * 10 ^ length ds + positional ds

-- `ds` are digits, one at least.
abbrev pub Digits : List ℕ → Type 0
Digits ds = All (λ d. d < 10) ds × (ds ≢ [])

-- In base 10 without separators a byte is a digit, or ends the number.
classify-cases :
    (ch : ℕ)
    → (classify 10 false ch ≡ stop)
      ⊎ ((d : ℕ) × (d < 10) × (ch ≡ b'0' + d) × (classify 10 false ch ≡ digit d))
unfolding classify
classify-cases ch = elim (Bool-cases (leb b'0' ch && leb ch b'9')) [
  | inl is_digit ↦
      inr (ch - b'0', ground (arith, is_digit), ground (arith, is_digit), ground (arith, is_digit))
  | inr is_not ↦ inl (ground (arith, is_not))
]

-- What nat.scan has after the digits `ds`, in front of `rest`.
abbrev AfterDigits : List ℕ → Bytes → Scanned → Scanned → Type 0
AfterDigits ds rest s r =
    (r.value ≡ s.value * 10 ^ length ds + positional ds)
    × (r.count ≡ s.count + length ds)
    × (r.misplaced ≡ s.misplaced)
    × (s.after_separator ≡ false → r.after_separator ≡ false)
    × (r.rest ≡ rest)

abbrev then_digit : ℕ → Scanned → Scanned
then_digit d s = record s {
  value = s.value * 10 + d;
  count = s.count + 1;
  after_digit = true;
  after_separator = false;
}

horner : (a d p n : ℕ) → (a * 10 + d) * p + n ≡ a * (p * 10) + (d * p + n)
horner a d p n = grind arith

digit_follows :
    (d : ℕ) (ds : List ℕ) (rest : Bytes) (s r : Scanned)
    → AfterDigits ds rest (then_digit d s) r
    → AfterDigits (d ∷ ds) rest s r
digit_follows d ds rest s r (v, c, m, a, e) = (
  v
      ∙ horner s.value d (10 ^ length ds) (positional ds)
      ∙ ap (λ p. s.value * p + (d * 10 ^ length ds + positional ds)) (sym (pow-suc 10 (length ds))),
  omega (arith, c),
  m,
  (λ _. a refl),
  e,
)

-- The scan splits a text into digits and a rest.
scan_digits-splits :
    (text : Bytes) (s : Scanned)
    → (ds : List ℕ) × (rest : Bytes) × (text ≡ digit_chars ds ++ rest)
      × All (λ d. d < 10) ds
      × AfterDigits ds rest s (scan_digits 10 false s text)
unfolding scan_digits
scan_digits-splits [] s = ([], [], refl, tt, (omega arith, omega arith, refl, (λ h. h), refl))
scan_digits-splits (ch ∷ text) s = elim (classify-cases ch) [
  | inl ends ↦
      rw (ends, scan_digits)
        ([], ch ∷ text, refl, tt, (omega arith, omega arith, refl, (λ h. h), refl))
  | inr (d, small, same, is_digit) ↦
      let (ds, rest, split, all, after) = scan_digits-splits text (then_digit d s) in
      rw (is_digit, scan_digits)
        (
          d ∷ ds,
          rest,
          ap₂ ◌∷◌ same split,
          (small, all),
          digit_follows d ds rest s (scan_digits 10 false (then_digit d s) text) after,
        )
]

scan_digits-digits :
    (ds : List ℕ) (s : Scanned)
    → All (λ d. d < 10) ds
    → AfterDigits ds [] s (scan_digits 10 false s (digit_chars ds))
unfolding scan_digits
scan_digits-digits [] s a = (omega arith, omega arith, refl, (λ h. h), refl)
scan_digits-digits (d ∷ ds) s a =
    rw (classify-digit false d a.0, scan_digits)
      (digit_follows d ds [] s (scan_digits 10 false (then_digit d s) (digit_chars ds))
        (scan_digits-digits ds (then_digit d s) a.1))

all_read-inv :
    (sign : ℕ → ℤ) (n : ℕ) (rest : Bytes) (z : ℤ)
    → all_read sign (some (n, rest)) ≡ some z
    → (rest ≡ []) × (z ≡ sign n)
all_read-inv sign n [] z e = (refl, cc e)
all_read-inv sign n (ch ∷ rest) z e = cc

finish_scan-inv :
    (sign : ℕ → ℤ) (r : Scanned) (z : ℤ)
    → r.misplaced ≡ false
    → r.after_separator ≡ false
    → all_read sign (finish_scan false r) ≡ some z
    → (r.count ≢ 0) × (r.rest ≡ []) × (z ≡ sign r.value)
unfolding finish_scan
finish_scan-inv sign r z m a e = elim (Bool-cases (eqb r.count 0)) [
  | inl none_read ↦ absurd (ground (arith, m, a, none_read))
  | inr some_read ↦
      let (over, same) =
        all_read-inv sign r.value r.rest z
          (rw (m, a, some_read, finish_scan, if◌then◌else◌) at e) in
      (ground (arith, some_read), over, same)
]

finish_scan-some :
    (r : Scanned)
    → r.misplaced ≡ false
    → r.after_separator ≡ false
    → r.count ≢ 0
    → finish_scan false r ≡ some (r.value, r.rest)
unfolding finish_scan
finish_scan-some r m a some_read = ground (arith, m, a, some_read)

-- What a text of digits gives, behind its sign.
pub read-Digits :
    (sign : ℕ → ℤ) (ds : List ℕ)
    → Digits ds
    → all_read sign (scan_base10 (digit_chars ds)) ≡ some (sign (positional ds))
unfolding scan_base10
read-Digits sign [] d = absurd (d.1 refl)
read-Digits sign (c ∷ cs) d =
    let (v, n, m, a, e) = scan_digits-digits (c ∷ cs) nothing_scanned d.0 in
    ap (all_read sign) (
      finish_scan-some (scan_digits 10 false nothing_scanned (digit_chars (c ∷ cs))) m (a refl)
        (λ none_read. absurd (omega (arith, n, none_read))))
    ∙ ap₂ (λ v r. all_read sign (some (v, r))) (omega (arith, v)) e

pub Digits-read :
    (sign : ℕ → ℤ) (text : Bytes) (z : ℤ)
    → all_read sign (scan_base10 text) ≡ some z
    → (ds : List ℕ) × Digits ds × (text ≡ digit_chars ds) × (z ≡ sign (positional ds))
unfolding scan_base10
Digits-read sign text z e =
    let (ds, rest, split, all, (v, n, m, a, r)) = scan_digits-splits text nothing_scanned in
    let (some_read, over, same) =
      finish_scan-inv sign (scan_digits 10 false nothing_scanned text) z m (a refl) e in
    (
      ds,
      (all, λ empty. some_read (omega (arith, n, ap length empty))),
      split ∙ ap (λ l. digit_chars ds ++ l) (sym r ∙ over) ∙ append-nil _,
      same ∙ ap sign (omega (arith, v)),
    )
