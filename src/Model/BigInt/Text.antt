-- ===== src/Model/BigInt/Text.antt =====
-- Reading the text of an integer back.
use garden_evm_watcher.Common.{
  ℕ, zero, suc, ◌+◌, ◌*◌, ◌/◌, ◌%◌, ◌^◌, ◌<◌, ◌≡◌, refl, sym, ap, ap₂, ◌∙◌, ℤ, pos, negsuc, negate,
  eqb, if◌then◌else◌, Bool, true, false, Bytes, [], ◌∷◌, ◌++◌, append_assoc, append-nil, Option,
  some, arith, dec_lt, lt→ltb, le→ltb_false,
}
use garden_evm_watcher.Common.{All, All-snoc, ◌≤◌}
use native.Mathlib.Nat.{pow-suc}
use garden_evm_watcher.Model.BigInt.{
  digit, classify, Scanned, scan_digits, nothing_scanned, finish_scan, scan_base0, scan_base10,
  scan_prefixed, all_read, set_from, digits_of, decimal,
}

pub classify-digit :
    (separated : Bool) (d : ℕ) → d < 10 → classify 10 separated (b'0' + d) ≡ digit d
unfolding classify
classify-digit separated d h = ground arith

-- `s` after a number of `k` digits.
abbrev read : ℕ → ℕ → Scanned → Scanned
read n k s = record s {
  value = s.value * 10 ^ k + n;
  count = s.count + k;
  after_digit = true;
  after_separator = false;
}

shifted : (a n p : ℕ) → (a * p + n / 10) * 10 + n % 10 ≡ a * (p * 10) + n
shifted a n p = grind arith

read_twice : (n k : ℕ) (s : Scanned) → read (n % 10) 1 (read (n / 10) k s) ≡ read n (suc k) s
read_twice n k s =
    ap₂ (λ v c. record s { value = v; count = c; after_digit = true; after_separator = false })
      (shifted s.value n (10 ^ k) ∙ ap (λ p. s.value * p + n) (sym (pow-suc 10 k))) (omega arith)

scan-one :
    (separated : Bool) (s : Scanned) (d : ℕ) (text : Bytes)
    → d < 10
    → scan_digits 10 separated s ((b'0' + d) ∷ text) ≡ scan_digits 10 separated (read d 1 s) text
unfolding scan_digits
scan-one separated s d text h = rw (classify-digit separated d h, scan_digits) refl

scan-digits_of :
    (fuel n : ℕ) (separated : Bool) (s : Scanned) (text : Bytes)
    → n < fuel
    → (k : ℕ) × (0 < k)
      × (scan_digits 10 separated s (digits_of fuel n ++ text)
          ≡ scan_digits 10 separated (read n k s) text)
unfolding digits_of
scan-digits_of zero n separated s text h = absurd (omega (arith, h))
scan-digits_of (suc fuel) n separated s text h = elim (dec_lt n 10) [
  | yes small ↦
      rw (lt→ltb n 10 small, digits_of) (1, omega arith, scan-one separated s n text small)
  | no large ↦
      let (k, some_digits, before) =
        scan-digits_of fuel (n / 10) separated s ((b'0' + n % 10) ∷ text) (omega (arith, h)) in
      (
        suc k,
        omega arith,
        rw (le→ltb_false n 10 (omega arith), digits_of)
            (ap (scan_digits 10 separated s)
                (append_assoc (digits_of fuel (n / 10)) ((b'0' + n % 10) ∷ []) text)
              ∙ before
              ∙ scan-one separated (read (n / 10) k s) (n % 10) text (omega arith)
              ∙ ap (λ r. scan_digits 10 separated r text) (read_twice n k s)),
      )
]

-- The end of a number that read `k` digits and nothing else.
finish-read :
    (octal : Bool) (n k : ℕ) (rest : Bytes)
    → 0 < k
    → finish_scan octal (record (read n k nothing_scanned) { rest = rest }) ≡ some (n, rest)
unfolding finish_scan
finish-read octal n k rest h = ground (arith, h)

scan_all :
    (separated : Bool) (n : ℕ)
    → finish_scan false (scan_digits 10 separated nothing_scanned (digits_of (suc n) n))
      ≡ some (n, [])
unfolding scan_digits
scan_all separated n =
    let (k, some_digits, e) = scan-digits_of (suc n) n separated nothing_scanned [] (omega arith) in
    ap (λ text. finish_scan false (scan_digits 10 separated nothing_scanned text))
      (sym (append-nil (digits_of (suc n) n)))
    ∙ ap (finish_scan false) e
    ∙ finish-read false n k [] some_digits

-- The first digit, which is '0' for the number 0 only.
pub data Leading : ℕ → Bytes → Type 0 where
  zero_alone : Leading 0 (b'0' ∷ [])
  leads : {n : ℕ} (d : ℕ) (text : Bytes) → 0 < d → d < 10 → Leading n ((b'0' + d) ∷ text)

Leading-append :
    (n : ℕ) (text : Bytes) (c : ℕ) → 0 < n → Leading n text → (m : ℕ) → Leading m (text ++ c ∷ [])
Leading-append _ _ c h zero_alone m = absurd (omega (arith, h))
Leading-append _ _ c h (leads d text p q) m = leads d (text ++ c ∷ []) p q

pub Leading-digits_of : (fuel n : ℕ) → n < fuel → Leading n (digits_of fuel n)
unfolding digits_of
Leading-digits_of zero n h = absurd (omega (arith, h))
Leading-digits_of (suc fuel) n h = elim (dec_lt n 10) [
  | yes small ↦ rw (lt→ltb n 10 small, digits_of) (one_digit n small)
  | no large ↦
      rw (le→ltb_false n 10 (omega arith), digits_of)
        (Leading-append (n / 10) _ _ (omega arith)
          (Leading-digits_of fuel (n / 10) (omega (arith, h))) n)
]
  where
    one_digit : (m : ℕ) → m < 10 → Leading m ((b'0' + m) ∷ [])
    one_digit zero q = zero_alone
    one_digit (suc m) q = leads (suc m) [] (omega arith) q

abbrev pub IsDigit : ℕ → Type 0
IsDigit ch = (b'0' ≤ ch) × (ch ≤ b'9')

pub digits_of-IsDigit : (fuel n : ℕ) → n < fuel → All IsDigit (digits_of fuel n)
unfolding digits_of
digits_of-IsDigit zero n h = tt
digits_of-IsDigit (suc fuel) n h = elim (dec_lt n 10) [
  | yes small ↦ rw (lt→ltb n 10 small, digits_of) ((omega arith, omega arith), tt)
  | no large ↦
      rw (le→ltb_false n 10 (omega arith), digits_of)
        (All-snoc IsDigit (digits_of fuel (n / 10)) (b'0' + n % 10)
          (digits_of-IsDigit fuel (n / 10) (omega (arith, h))) (omega arith, omega arith))
]

eqb-below : (a b : ℕ) → b < a → eqb a b ≡ false
eqb-below a b h = ground arith

-- Base 0 and base 10 agree on what digits_of writes.
scan_base0-Leading :
    (n : ℕ) (text : Bytes)
    → Leading n text
    → scan_base0 text ≡ finish_scan false (scan_digits 10 true nothing_scanned text)
unfolding scan_base0
scan_base0-Leading _ _ zero_alone = refl
scan_base0-Leading n _ (leads d [] p q) = refl
scan_base0-Leading n _ (leads d (next ∷ text) p q) =
    ap
      (λ b.
        if b
        then scan_prefixed next text
        else finish_scan false (scan_digits 10 true nothing_scanned ((b'0' + d) ∷ next ∷ text)))
      (eqb-below (b'0' + d) b'0' (omega arith))

pub scan_base0-digits_of : (n : ℕ) → scan_base0 (digits_of (suc n) n) ≡ some (n, [])
scan_base0-digits_of n =
    scan_base0-Leading n _ (Leading-digits_of (suc n) n (omega arith)) ∙ scan_all true n

pub scan_base10-digits_of : (n : ℕ) → scan_base10 (digits_of (suc n) n) ≡ some (n, [])
unfolding scan_base10
scan_base10-digits_of n = scan_all false n

set_from-Leading :
    (scan : Bytes → Option (ℕ × Bytes)) (n : ℕ) (text : Bytes)
    → Leading n text
    → set_from scan text ≡ all_read pos (scan text)
unfolding set_from
set_from-Leading scan _ _ zero_alone = refl
set_from-Leading scan n _ (leads d text p q) =
    ap₂
      (λ a b.
        if a
        then all_read negate (scan text)
        else if b
        then all_read pos (scan text)
        else all_read pos (scan ((b'0' + d) ∷ text)))
      (eqb-below (b'0' + d) b'-' (omega arith)) (eqb-below (b'0' + d) b'+' (omega arith))

-- A reader that reads what digits_of writes reads what Text(10) writes.
pub set_from-decimal :
    (scan : Bytes → Option (ℕ × Bytes))
    → ((n : ℕ) → scan (digits_of (suc n) n) ≡ some (n, []))
    → (z : ℤ) → set_from scan (decimal z) ≡ some z
unfolding decimal
set_from-decimal scan reads (pos n) =
    set_from-Leading scan n _ (Leading-digits_of (suc n) n (omega arith))
    ∙ ap (all_read pos) (reads n)
set_from-decimal scan reads (negsuc n) = unfold set_from in ap (all_read negate) (reads (suc n))
