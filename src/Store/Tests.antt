-- ===== src/Store/Tests.antt =====
-- The store's methods over a database in memory.
use garden_evm_watcher.Common.{
  pos, ◌≡◌, refl, ascii, [], ◌∷◌, none, some, ok, err, no_swap_found, false,
}
use garden_evm_watcher.Model.Rows.{Swap, CreateOrder}
use garden_evm_watcher.Store.Gorm.{stamp}
use garden_evm_watcher.Store.Methods.{
  Store, update_swap_initiate, update_swap_refund, write_create_order, read_create_order,
}
use garden_evm_watcher.Store.Update.{Updated, initiate_row, update_swap_initiate-Updated}
use garden_evm_watcher.Store.Memory.{Memory, contains, memory, memory_laws}

abbrev swap : Swap
swap = record {
  created_at = 0;
  updated_at = 0;
  deleted_at = none;
  swap_id = ascii "0102";
  chain = [];
  asset = [];
  initiator = [];
  redeemer = [];
  time_lock = none;
  filled_amount = none;
  amount = none;
  secret_hash = [];
  secret = [];
  initiate_tx_hash = [];
  redeem_tx_hash = [];
  refund_tx_hash = [];
  initiate_block_number = none;
  redeem_block_number = none;
  refund_block_number = none;
}

abbrev order : CreateOrder
order = record {
  created_at = 0;
  updated_at = 0;
  deleted_at = none;
  create_id = ascii "abcd";
  block_number = some (pos 7);
  source_chain = [];
  destination_chain = [];
  source_asset = [];
  destination_asset = [];
  initiator_source_address = [];
  initiator_destination_address = [];
  source_amount = some (pos 3);
  destination_amount = none;
  fee = none;
  nonce = none;
  min_destination_confirmations = 6;
  time_lock = 288;
  secret_hash = [];
}

abbrev database : Memory
database = record { swaps = swap ∷ []; orders = []; clock = 9; broken = false }

abbrev store : Store (Unit {0})
store = record { db = tt }

unknown_swap :
    (update_swap_refund memory store (ascii "ffff") (ascii "tx") (some (pos 5)) database).0
    ≡ err no_swap_found
unfolding update_swap_refund memory
unknown_swap = refl

update_swap_initiate-Updated_example :
    Updated memory memory_laws store.db
      (initiate_row (ascii "tx") (some (pos 4)) (some (pos 5)))
      (ascii "0102")
      database
      (update_swap_initiate memory store
        (ascii "0102")
        (ascii "tx")
        (some (pos 4))
        (some (pos 5))
        database)
update_swap_initiate-Updated_example =
    update_swap_initiate-Updated memory memory_laws store (ascii "0102") (ascii "tx") (some (pos 4))
      (some (pos 5)) database

order_written : (write_create_order memory store order database).0 ≡ ok tt
unfolding write_create_order memory contains
order_written = refl

order_read :
    (read_create_order memory store order.create_id
      (write_create_order memory store order database).1).0
    ≡ ok (stamp 9 order)
unfolding write_create_order read_create_order memory contains
order_read = refl
