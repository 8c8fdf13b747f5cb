-- ===== src/Store/Methods.antt =====
-- pkg/store/store.go: the store and its methods.
use garden_evm_watcher.Common.{
  ℕ, zero, suc, Bytes, ascii, [], ◌∷◌, Outcome, ok, err, panic, no_swap_found, store_not_in_context,
  panicked,
}
use garden_evm_watcher.Model.Rows.{BigInt, Swap, CreateOrder}
use garden_evm_watcher.Store.Gorm.{Gorm, text, blob, big_int, big_pointer, Columns}

pub record Store (Handle : Type 0) : Type 0 where
  pub db : Handle

-- context.Context, as the calls that built it.
pub data Context (Handle : Type 0) : Type 0 where
  background : Context Handle
  with_cancel : Context Handle → Context Handle
  with_value : Store Handle → Context Handle → Context Handle

module _ {Handle : Type 0} where
  -- ctx.Value(storeKey).(*Store); `contextKey` is private, so only ContextWithStore sets it.
  unfoldable pub store_from_context : Context Handle → Outcome (Store Handle)
  store_from_context background = err store_not_in_context
  store_from_context (with_cancel parent) = store_from_context parent
  store_from_context (with_value store parent) = ok store

  unfoldable pub context_with_store : Context Handle → Store Handle → Context Handle
  context_with_store ctx store = with_value store ctx

-- if result.Error != nil { … }; if result.RowsAffected == 0 { … }
abbrev pub check_rows : {Db : Type 0} → Outcome ℕ × Db → Outcome (Unit {0}) × Db
check_rows (ok zero, s) = (err no_swap_found, s)
check_rows (ok (suc n), s) = (ok tt, s)
check_rows (err e, s) = (err e, s)
check_rows (panic p, s) = (panic p, s)

abbrev pub made :
    {Handle Db : Type 0} → Handle → Outcome (Unit {0}) × Db → Outcome (Store Handle) × Db
made db (ok u, s) = (ok (record { db = db }), s)
made db (err e, s) = (panic (panicked e), s)
made db (panic p, s) = (panic p, s)

module _ {Handle Db : Type 0} (g : Gorm Handle Db) where
  unfoldable pub new_store : Handle → Db → Outcome (Store Handle) × Db
  new_store db s = made db (g.auto_migrate db s)

  unfoldable pub create_swap : Store Handle → Swap → Db → Outcome (Unit {0}) × Db
  create_swap s swap = g.create_swap s.db swap

  unfoldable pub update_swap_initiate :
      Store Handle → Bytes → Bytes → BigInt → BigInt → Db → Outcome (Unit {0}) × Db
  update_swap_initiate s order_id initiate_tx_hash filled_amount initiate_block_number db =
      check_rows (g.update_swaps s.db order_id columns db)
    where
      columns : Columns
      columns =
          (ascii "initiate_tx_hash", text initiate_tx_hash)
          ∷ (ascii "filled_amount", big_pointer filled_amount)
          ∷ (ascii "initiate_block_number", big_int initiate_block_number)
          ∷ []

  unfoldable pub update_swap_redeem :
      Store Handle → Bytes → Bytes → Bytes → BigInt → Db → Outcome (Unit {0}) × Db
  update_swap_redeem s order_id redeem_tx_hash secret redeem_block_number db =
      check_rows (g.update_swaps s.db order_id columns db)
    where
      columns : Columns
      columns =
          (ascii "redeem_tx_hash", text redeem_tx_hash)
          ∷ (ascii "secret", blob secret)
          ∷ (ascii "redeem_block_number", big_int redeem_block_number)
          ∷ []

  unfoldable pub update_swap_refund :
      Store Handle → Bytes → Bytes → BigInt → Db → Outcome (Unit {0}) × Db
  update_swap_refund s order_id refund_tx_hash refund_block_number db =
      check_rows (g.update_swaps s.db order_id columns db)
    where
      columns : Columns
      columns =
          (ascii "refund_tx_hash", text refund_tx_hash)
          ∷ (ascii "refund_block_number", big_int refund_block_number)
          ∷ []

  unfoldable pub write_create_order : Store Handle → CreateOrder → Db → Outcome (Unit {0}) × Db
  write_create_order s order = g.create_order s.db order

  unfoldable pub read_create_order : Store Handle → Bytes → Db → Outcome CreateOrder × Db
  read_create_order s create_id = g.first_order s.db create_id
