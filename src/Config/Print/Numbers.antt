-- ===== src/Config/Print/Numbers.antt =====
-- The texts of numbers as JSON.
use garden_evm_watcher.Common.{
  ℕ, suc, ◌+◌, ◌<◌, ◌≡◌, refl, ap, ◌∙◌, ℤ, pos, negsuc, inl, inr, true, Bytes, [], ◌∷◌, All,
  All-map, arith,
}
use garden_evm_watcher.Model.BigInt.{digits_of, decimal}
use garden_evm_watcher.Model.BigInt.Text.{
  Leading, zero_alone, leads, Leading-digits_of, IsDigit, digits_of-IsDigit,
}
use garden_evm_watcher.Json.{at_sign, at_integer, in_integer, is_complete, in_number, number_step}
use garden_evm_watcher.Json.Write.{IsNumber, number_run}

digit-in_number : (ch : ℕ) → IsDigit ch → in_number ch ≡ true
digit-in_number ch h = ground arith

integer_step : (ch : ℕ) → IsDigit ch → number_step in_integer ch ≡ in_integer
unfolding number_step
integer_step ch h = ground arith

leading_step : (d : ℕ) → 0 < d → d < 10 → number_step at_integer (b'0' + d) ≡ in_integer
unfolding number_step
leading_step d h k = ground arith

first_step : (ch : ℕ) → IsDigit ch → number_step at_sign ch ≡ number_step at_integer ch
unfolding number_step
first_step ch h = ground arith

number_run-digits : (text : Bytes) → All IsDigit text → number_run in_integer text ≡ in_integer
number_run-digits [] h = refl
number_run-digits (ch ∷ text) h =
    ap (λ s. number_run s text) (integer_step ch h.0) ∙ number_run-digits text h.1

number_run-Leading :
    (n : ℕ) (text : Bytes)
    → Leading n text
    → All IsDigit text
    → is_complete (number_run at_integer text) ≡ true
unfolding number_step
number_run-Leading _ _ zero_alone h = refl
number_run-Leading n _ (leads d text p q) h =
    ap (λ s. is_complete (number_run s text)) (leading_step d p q)
    ∙ ap is_complete (number_run-digits text h.1)

in_numbers : (text : Bytes) → All IsDigit text → All (λ c. in_number c ≡ true) text
in_numbers text = All-map IsDigit (λ c. in_number c ≡ true) text digit-in_number

IsNumber-digits :
    (text : Bytes)
    → All IsDigit text
    → is_complete (number_run at_integer text) ≡ true
    → IsNumber text
IsNumber-digits [] h done = cc
IsNumber-digits (ch ∷ text) h done = (
  inr h.0,
  in_numbers text h.1,
  ap (λ s. is_complete (number_run s text)) (first_step ch h.0) ∙ done,
)

pub IsNumber-decimal : (z : ℤ) → IsNumber (decimal z)
unfolding decimal number_step
IsNumber-decimal (pos n) =
    let digits = digits_of-IsDigit (suc n) n (omega arith) in
    IsNumber-digits (digits_of (suc n) n) digits (
      number_run-Leading n (digits_of (suc n) n) (Leading-digits_of (suc n) n (omega arith)) digits)
IsNumber-decimal (negsuc n) =
    let digits = digits_of-IsDigit (suc (suc n)) (suc n) (omega arith) in
    (
      inl refl,
      in_numbers (digits_of (suc (suc n)) (suc n)) digits,
      number_run-Leading (suc n) (digits_of (suc (suc n)) (suc n))
          (Leading-digits_of (suc (suc n)) (suc n) (omega arith)) digits,
    )
