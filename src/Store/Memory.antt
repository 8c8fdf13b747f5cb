-- ===== src/Store/Memory.antt =====
-- A database in memory that meets the laws: they can hold. A broken one fails every call.
use garden_evm_watcher.Common.{
  ℕ, ◌≡◌, ◌≢◌, refl, Bool, true, false, if◌then◌else◌, ascii, Bytes, bytes_comparable,
  same_bytes_iff, ◌==◌, ◌||◌, List, [], ◌∷◌, ◌++◌, map, Option, none, some, Option-cases, Outcome,
  ok, err, external, arith, inl, inr, In, Bool-cases,
}
use garden_evm_watcher.Model.Rows.{Swap, CreateOrder}
use garden_evm_watcher.Store.Update.{IsReliable}
use garden_evm_watcher.Store.Gorm.{
  Gorm, IsLawful, Columns, set_columns, update_row, count_targets, stamp, find_order, order_ids,
}

pub record Memory : Type 0 where
  pub swaps : List Swap
  pub orders : List CreateOrder
  pub clock : ℕ
  pub broken : Bool

unfoldable pub contains : Bytes → List Bytes → Bool
contains id [] = false
contains id (j ∷ js) = j == id || contains id js

contains_of_In : (id : Bytes) (js : List Bytes) → In id js → contains id js ≡ true
unfolding contains
contains_of_In id [] m = absurd m
contains_of_In id (j ∷ js) (inl e) = ground (arith, same_bytes_iff j id, e)
contains_of_In id (j ∷ js) (inr m) = ground (arith, contains_of_In id js m)

abbrev pub down : {A : Type 0} → Memory → (Outcome A × Memory) → Outcome A × Memory
down db r = if db.broken then (err (external (ascii "connection refused")), db) else r

abbrev found_row : Option CreateOrder → Outcome CreateOrder
found_row none = err (external (ascii "record not found"))
found_row (some o) = ok o

unfoldable pub memory : Gorm (Unit {0}) Memory
unfolding contains
memory = record {
  auto_migrate = λ h db. down db (ok tt, db);
  create_swap = λ h row db. down db (ok tt, record db { swaps = db.swaps ++ row ∷ [] });
  create_order = λ h o db. down db (
      if contains o.create_id (order_ids db.orders)
      then (err (external (ascii "duplicate key")), db)
      else (ok tt, record db { orders = db.orders ++ stamp db.clock o ∷ [] }));
  update_swaps = λ h id cs db. down db (
    ok (count_targets id db.swaps),
    record db { swaps = map (update_row (set_columns cs) id db.clock) db.swaps },
  );
  first_order = λ h id db. down db (found_row (find_order id db.orders), db);
}

module _ (h : Unit {0}) where
  pub memory-update_ok :
      (id : Bytes) (cs : Columns) (db : Memory) (n : ℕ)
      → (memory.update_swaps h id cs db).0 ≡ ok n
      → (n ≡ count_targets id db.swaps)
        × ((t : ℕ) × ((memory.update_swaps h id cs db).1.swaps
              ≡ map (update_row (set_columns cs) id t) db.swaps))
        × ((memory.update_swaps h id cs db).1.orders ≡ db.orders)
  unfolding memory
  memory-update_ok id cs db n e = elim (Bool-cases db.broken) [
    | inl down_now ↦ absurd (ground (arith, down_now))
    | inr up ↦ (ground (arith, up), (db.clock, rw up refl), rw up refl)
  ]

  pub memory-update_fails :
      (id : Bytes) (cs : Columns) (db : Memory)
      → ((n : ℕ) → (memory.update_swaps h id cs db).0 ≢ ok n)
      → ((memory.update_swaps h id cs db).1.swaps ≡ db.swaps)
        × ((memory.update_swaps h id cs db).1.orders ≡ db.orders)
  unfolding memory
  memory-update_fails id cs db e = elim (Bool-cases db.broken) [
    | inl down_now ↦ (rw down_now refl, rw down_now refl)
    | inr up ↦ absurd (e (count_targets id db.swaps) (rw up refl))
  ]

  pub memory-create_ok :
      (o : CreateOrder) (db : Memory)
      → (memory.create_order h o db).0 ≡ ok tt
      → (¬ In o.create_id (order_ids db.orders))
        × ((t : ℕ) × ((memory.create_order h o db).1.orders ≡ db.orders ++ stamp t o ∷ []))
        × ((memory.create_order h o db).1.swaps ≡ db.swaps)
  unfolding memory
  memory-create_ok o db e =
      let fresh : contains o.create_id (order_ids db.orders) ≡ false = ground arith in
      (
        λ m. cc (fresh, contains_of_In o.create_id (order_ids db.orders) m),
        (db.clock, ground (arith, fresh)),
        ground arith,
      )

  pub memory-create_fails :
      (o : CreateOrder) (db : Memory)
      → (memory.create_order h o db).0 ≢ ok tt
      → ((memory.create_order h o db).1.swaps ≡ db.swaps)
        × ((memory.create_order h o db).1.orders ≡ db.orders)
  unfolding memory
  memory-create_fails o db e = ground arith

  pub memory-first_reads :
      (id : Bytes) (db : Memory) (o : CreateOrder)
      → (memory.first_order h id db).0 ≡ ok o
      → find_order id db.orders ≡ some o
  unfolding memory
  memory-first_reads id db o e = elim (Option-cases (find_order id db.orders)) [
    | inl missing ↦ absurd (ground (arith, missing))
    | inr (p, found) ↦ ground (arith, found)
  ]

  pub memory-first_keeps :
      (id : Bytes) (db : Memory)
      → ((memory.first_order h id db).1.swaps ≡ db.swaps)
        × ((memory.first_order h id db).1.orders ≡ db.orders)
  unfolding memory
  memory-first_keeps id db = ground arith

abbrev pub memory_laws : IsLawful memory
memory_laws = record {
  swaps = λ db. db.swaps;
  orders = λ db. db.orders;
  update_ok = λ h. memory-update_ok h;
  update_fails = λ h. memory-update_fails h;
  create_ok = λ h. memory-create_ok h;
  create_fails = λ h. memory-create_fails h;
  first_reads = λ h. memory-first_reads h;
  first_keeps = λ h. memory-first_keeps h;
}

abbrev up : Memory → Memory
up db = record db { broken = false }

-- The database that never breaks.
abbrev pub steady_memory : Gorm (Unit {0}) Memory
steady_memory = record {
  auto_migrate = λ h db. memory.auto_migrate h (up db);
  create_swap = λ h row db. memory.create_swap h row (up db);
  create_order = λ h o db. memory.create_order h o (up db);
  update_swaps = λ h id cs db. memory.update_swaps h id cs (up db);
  first_order = λ h id db. memory.first_order h id (up db);
}

abbrev pub steady_memory_laws : IsLawful steady_memory
steady_memory_laws = record {
  swaps = λ db. db.swaps;
  orders = λ db. db.orders;
  update_ok = λ h id cs db. memory-update_ok h id cs (up db);
  update_fails = λ h id cs db. memory-update_fails h id cs (up db);
  create_ok = λ h o db. memory-create_ok h o (up db);
  create_fails = λ h o db. memory-create_fails h o (up db);
  first_reads = λ h id db. memory-first_reads h id (up db);
  first_keeps = λ h id db. memory-first_keeps h id (up db);
}

pub steady_memory-IsReliable : IsReliable steady_memory steady_memory_laws
unfolding memory
steady_memory-IsReliable = record { answers = λ h id cs db. (count_targets id db.swaps, refl) }
