-- ===== src/Store/Gorm.antt =====
-- What pkg/store/store.go calls of gorm, which is no code of the repository: a parameter, with the
-- documented behaviour of the calls as laws over what the tables hold.
use garden_evm_watcher.Common.{
  ℕ, zero, suc, ◌+◌, ◌≡◌, ◌≢◌, Bool, true, false, ◌&&◌, if◌then◌else◌, Bytes, ascii,
  bytes_comparable, ◌==◌, List, [], ◌∷◌, ◌++◌, map, Option, none, some, Outcome, ok, In,
}
use garden_evm_watcher.Model.Rows.{BigInt, Swap, CreateOrder}

-- A value in the map that `Updates` takes: a string, a `[]byte`, a `model.BigInt` or a `*big.Int`.
pub data ColumnValue : Type 0 where
  text : Bytes → ColumnValue
  blob : Bytes → ColumnValue
  big_int : BigInt → ColumnValue
  big_pointer : BigInt → ColumnValue

abbrev pub Columns : Type 0
Columns = List (Bytes × ColumnValue)

pub record Gorm (Handle Db : Type 0) : Type 0 where
  -- db.AutoMigrate(…)
  pub auto_migrate : Handle → Db → Outcome (Unit {0}) × Db
  -- db.Create(swap).Error, db.Create(order).Error
  pub create_swap : Handle → Swap → Db → Outcome (Unit {0}) × Db
  pub create_order : Handle → CreateOrder → Db → Outcome (Unit {0}) × Db
  -- db.Model(&model.Swap{}).Where("swap_id = ?", id).Updates(columns), with RowsAffected
  pub update_swaps : Handle → Bytes → Columns → Db → Outcome ℕ × Db
  -- db.Where("create_id = ?", id).First(order)
  pub first_order : Handle → Bytes → Db → Outcome CreateOrder × Db

-- A soft-deleted row is invisible to queries and updates.
abbrev pub is_live : Option ℕ → Bool
is_live none = true
is_live (some t) = false

-- gorm's column for a field is the field's name in snake case.
abbrev pub set_column : Bytes × ColumnValue → Swap → Swap
set_column (name, text s) row =
    if name == ascii "initiate_tx_hash"
    then record row { initiate_tx_hash = s }
    else if name == ascii "redeem_tx_hash"
    then record row { redeem_tx_hash = s }
    else if name == ascii "refund_tx_hash"
    then record row { refund_tx_hash = s }
    else row
set_column (name, blob s) row =
    if name == ascii "secret"
    then record row { secret = s }
    else if name == ascii "secret_hash"
    then record row { secret_hash = s }
    else row
set_column (name, big_int n) row =
    if name == ascii "initiate_block_number"
    then record row { initiate_block_number = n }
    else if name == ascii "redeem_block_number"
    then record row { redeem_block_number = n }
    else if name == ascii "refund_block_number"
    then record row { refund_block_number = n }
    else if name == ascii "filled_amount"
    then record row { filled_amount = n }
    else row
set_column (name, big_pointer n) row =
    if name == ascii "filled_amount" then record row { filled_amount = n } else row

abbrev pub set_columns : Columns → Swap → Swap
set_columns [] row = row
set_columns (c ∷ cs) row = set_columns cs (set_column c row)

abbrev pub is_target : Bytes → Swap → Bool
is_target id row = row.swap_id == id && is_live row.deleted_at

-- `t` is the time that gorm writes into `updated_at`.
abbrev pub update_row : (Swap → Swap) → Bytes → ℕ → Swap → Swap
update_row f id t row = if is_target id row then record (f row) { updated_at = t } else row

abbrev pub count_targets : Bytes → List Swap → ℕ
count_targets id [] = 0
count_targets id (row ∷ rows) = (if is_target id row then 1 else 0) + count_targets id rows

-- A time stamp that the caller has set is kept.
abbrev pub time_or : ℕ → ℕ → ℕ
time_or t zero = t
time_or t (suc n) = suc n

abbrev pub stamp : ℕ → CreateOrder → CreateOrder
stamp t order = record order {
  created_at = time_or t order.created_at;
  updated_at = time_or t order.updated_at;
}

-- The first live order with a given id. The ids are primary keys.
abbrev pub find_order : Bytes → List CreateOrder → Option CreateOrder
find_order id [] = none
find_order id (o ∷ os) =
    if o.create_id == id && is_live o.deleted_at then some o else find_order id os

abbrev pub order_ids : List CreateOrder → List Bytes
order_ids = map (λ o. o.create_id)

-- The documented behaviour: a write that fails is rolled back, one that succeeds writes the rows
-- that match, and nothing else; a primary key is taken once. (A nil BigInt is
-- no value that the driver takes: a write of one fails, and the laws on success do not speak of it.)
pub record IsLawful {Handle Db : Type 0} (g : Gorm Handle Db) : Type 0 where
  pub swaps : Db → List Swap
  pub orders : Db → List CreateOrder
  pub update_ok :
      (h : Handle) (id : Bytes) (cs : Columns) (db : Db) (n : ℕ)
      → (g.update_swaps h id cs db).0 ≡ ok n
      → (n ≡ count_targets id (swaps db))
        × ((t : ℕ) × (swaps (g.update_swaps h id cs db).1
              ≡ map (update_row (set_columns cs) id t) (swaps db)))
        × (orders (g.update_swaps h id cs db).1 ≡ orders db)
  pub update_fails :
      (h : Handle) (id : Bytes) (cs : Columns) (db : Db)
      → ((n : ℕ) → (g.update_swaps h id cs db).0 ≢ ok n)
      → (swaps (g.update_swaps h id cs db).1 ≡ swaps db)
        × (orders (g.update_swaps h id cs db).1 ≡ orders db)
  pub create_ok :
      (h : Handle) (o : CreateOrder) (db : Db)
      → (g.create_order h o db).0 ≡ ok tt
      → (¬ In o.create_id (order_ids (orders db)))
        × ((t : ℕ) × (orders (g.create_order h o db).1 ≡ orders db ++ stamp t o ∷ []))
        × (swaps (g.create_order h o db).1 ≡ swaps db)
  pub create_fails :
      (h : Handle) (o : CreateOrder) (db : Db)
      → (g.create_order h o db).0 ≢ ok tt
      → (swaps (g.create_order h o db).1 ≡ swaps db)
        × (orders (g.create_order h o db).1 ≡ orders db)
  pub first_reads :
      (h : Handle) (id : Bytes) (db : Db) (o : CreateOrder)
      → (g.first_order h id db).0 ≡ ok o
      → find_order id (orders db) ≡ some o
  pub first_keeps :
      (h : Handle) (id : Bytes) (db : Db)
      → (swaps (g.first_order h id db).1 ≡ swaps db)
        × (orders (g.first_order h id db).1 ≡ orders db)
