-- ===== src/Common/Outcomes.antt =====
-- What a Go call comes back with: a value, an `error`, or a panic.
use mathlib.Core.Path.{◌≡◌, refl}
use mathlib.Core.Option.{Option, none, some}
use garden_evm_watcher.Common.Equality.{Bytes}

-- The errors that the program makes, tells apart or wraps. `external` is an error of a library.
pub data Error : Type 0 where
  canceled : Error
  eth_client_required logger_required bad_worker_count bad_queue_size : Error
  event_not_in_abi : Bytes → Error
  already_stopped store_not_in_context no_swap_found : Error
  unsupported_big_int invalid_big_int : Error
  external : Bytes → Error
  wrapped : Bytes → Error → Error

pub data Panic : Type 0 where
  nil_pointer index_out_of_range slice_out_of_range non_positive_ticker : Panic
  send_on_closed_channel close_of_closed_channel : Panic
  panicked : Error → Panic

pub data Outcome {ℓ} (A : Type ℓ) : Type ℓ where
  ok : A → Outcome A
  err : Error → Outcome A
  panic : Panic → Outcome A

-- `if err != nil { return fmt.Errorf("…: %w", err) }`
abbrev pub wrap_error {ℓ} : {A : Type ℓ} → Bytes → Outcome A → Outcome A
wrap_error message (err e) = err (wrapped message e)
wrap_error message r = r

-- A split on a computed outcome that keeps the equation.
pub data View {ℓ} {A : Type ℓ} (r : Outcome A) : Type ℓ where
  returned : (a : A) → r ≡ ok a → View r
  failed : (e : Error) → r ≡ err e → View r
  crashed : (p : Panic) → r ≡ panic p → View r

pub view {ℓ} : {A : Type ℓ} (r : Outcome A) → View r
view (ok a) = returned a refl
view (err e) = failed e refl
view (panic p) = crashed p refl

pub data FoundView {ℓ} {A : Type ℓ} (r : Outcome (Option A)) : Type ℓ where
  nothing : r ≡ ok none → FoundView r
  found : (a : A) → r ≡ ok (some a) → FoundView r
  failed : (e : Error) → r ≡ err e → FoundView r
  crashed : (p : Panic) → r ≡ panic p → FoundView r

pub found_view {ℓ} : {A : Type ℓ} (r : Outcome (Option A)) → FoundView r
found_view (ok none) = nothing refl
found_view (ok (some a)) = found a refl
found_view (err e) = FoundView.failed e refl
found_view (panic p) = FoundView.crashed p refl

-- Calls that read and write a state `S`. What was written before an error stays written.
abbrev pub Exec : Type 0 → Type 0 → Type 0
Exec S A = S → Outcome A × S

abbrev pub lift : {S A : Type 0} → Outcome A → Exec S A
lift r s = (r, s)

-- Go on with the value of a call, in the state that the call left.
abbrev pub continue : {S A B : Type 0} → Outcome A × S → (A → Exec S B) → Outcome B × S
continue (ok a, s) f = f a s
continue (err e, s) f = (err e, s)
continue (panic p, s) f = (panic p, s)

infixl 5 ◌>>=◌
abbrev pub ◌>>=◌ : {S A B : Type 0} → Exec S A → (A → Exec S B) → Exec S B
◌>>=◌ m f s = continue (m s) f

-- A chain that ends well went well at each step.
pub continue-ok :
    {S A B : Type 0} (r : Outcome A × S) (f : A → Exec S B) (b : B) (s' : S)
    → continue r f ≡ (ok b, s')
    → (a : A) × (s : S) × (r ≡ (ok a, s)) × (f a s ≡ (ok b, s'))
continue-ok (ok a, s) f b s' e = (a, s, refl, e)
continue-ok (err x, s) f b s' e = cc
continue-ok (panic p, s) f b s' e = cc
