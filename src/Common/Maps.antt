-- ===== src/Common/Maps.antt =====
-- Go's maps as association lists. Go ranges over a map in an order that it does not fix: here it is
-- the order of the list, and what is proved for every list holds for every order.
use mathlib.Core.Path.{◌≡◌, refl}
use mathlib.Core.Option.{Option, none, some}
use mathlib.Core.List.{List, [], ◌∷◌, map}
use native.Mathlib.Omega.{arith}
use garden_evm_watcher.Common.Tests.{if◌then◌else◌}
use garden_evm_watcher.Common.Equality.{Comparable, ◌==◌}

abbrev pub Dict : Type 0 → Type 0 → Type 0
Dict K V = List (K × V)

module _ {K V : Type 0} ⦃e : Comparable K⦄ where
  -- value, ok := table[key]
  unfoldable pub lookup : K → Dict K V → Option V
  lookup key [] = none
  lookup key ((old, value) ∷ table) = if old == key then some value else lookup key table

  -- table[key] = value
  unfoldable pub insert : K → V → Dict K V → Dict K V
  insert key value [] = (key, value) ∷ []
  insert key value ((old, was) ∷ table) =
      if old == key then (key, value) ∷ table else (old, was) ∷ insert key value table

  pub lookup-insert :
      (key other : K) (value : V) (table : Dict K V)
      → lookup other (insert key value table)
        ≡ (if key == other then some value else lookup other table)
  unfolding lookup insert
  lookup-insert key other value [] = refl
  lookup-insert key other value ((old, was) ∷ table) = ground (
    arith,
    e.equals_iff key other,
    e.equals_iff old key,
    e.equals_iff old other,
    lookup-insert key other value table,
  )

abbrev pub keys : {K V : Type 0} → Dict K V → List K
keys = map (λ p. p.0)
