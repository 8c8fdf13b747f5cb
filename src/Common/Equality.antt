-- ===== src/Common/Equality.antt =====
-- Equality that a Go map uses on its keys, as an interface with instances.
use Prim.Native.Nat.{ℕ}
use Prim.Native.Char.{code}
use Prim.Native.String.{String}
use mathlib.Core.Path.{◌≡◌, refl}
use mathlib.Core.Logic.{◌↔◌}
use mathlib.Core.Bool.{Bool, true, false, ◌&&◌}
use mathlib.Core.List.{List, [], ◌∷◌}
use native.Mathlib.Omega.{arith}
use garden_evm_watcher.Common.Tests.{eqb, eqb_iff}

-- Go's `comparable` types.
pub record Comparable {ℓ} (Key : Type ℓ) : Type ℓ where
  pub equals : Key → Key → Bool
  pub equals_iff : (x y : Key) → (equals x y ≡ true) ↔ (x ≡ y)

-- A Go string, byte slice or fixed byte array, as the list of its bytes.
abbrev pub Bytes : Type 0
Bytes = List ℕ

abbrev pub same_bytes : Bytes → Bytes → Bool
same_bytes [] t = elim t [ [] ↦ true | _ ∷ _ ↦ false ]
same_bytes (x ∷ s) [] = false
same_bytes (x ∷ s) (y ∷ t) = eqb x y && same_bytes s t

pub same_bytes_iff : (s t : Bytes) → (same_bytes s t ≡ true) ↔ (s ≡ t)
same_bytes_iff [] [] = ground arith
same_bytes_iff (x ∷ s) (y ∷ t) = ground (arith, same_bytes_iff s t)
same_bytes_iff [] (y ∷ t) = ground arith
same_bytes_iff (x ∷ s) [] = ground arith

instance abbrev pub bytes_comparable : Comparable Bytes
bytes_comparable = record { equals = same_bytes; equals_iff = same_bytes_iff }

instance abbrev pub number_comparable : Comparable ℕ
number_comparable = record { equals = eqb; equals_iff = eqb_iff }

infix 50 ◌==◌
abbrev pub ◌==◌ {ℓ} : {Key : Type ℓ} ⦃c : Comparable Key⦄ → Key → Key → Bool
◌==◌ ⦃c⦄ x y = c.equals x y

pub ==-refl {ℓ} : {Key : Type ℓ} ⦃c : Comparable Key⦄ (x : Key) → (x == x) ≡ true
==-refl ⦃c⦄ x = (c.equals_iff x x).1 refl

-- The bytes of a text.
abbrev pub ascii : String → Bytes
ascii String.[] = []
ascii (String.◌∷◌ letter rest) = code letter ∷ ascii rest
