-- ===== src/Handlers/Tests/Orders.antt =====
-- The order book's handlers on concrete events.
use garden_evm_watcher.Common.{
  pos, ◌≡◌, ◌↔◌, refl, Bytes, ascii, [], ◌∷◌, ◌++◌, some, Outcome, ok, err, external, replicate,
  length, arith,
}
use garden_evm_watcher.Ethereum.{Log}
use garden_evm_watcher.Model.Rows.{CreateOrder}
use garden_evm_watcher.Store.Gorm.{stamp}
use garden_evm_watcher.Store.Methods.{
  store_from_context, context_with_store, write_create_order, read_create_order,
}
use garden_evm_watcher.Store.Orders.{Adds}
use garden_evm_watcher.Store.Memory.{contains, memory, memory_laws}
use garden_evm_watcher.Handlers.Hex.{encode_to_string}
use garden_evm_watcher.Handlers.Sha256.{sum256}
use garden_evm_watcher.Handlers.Orderbook
use garden_evm_watcher.Handlers.Orderbook.{EvmOrder, handle_created_event, create_id, order_row}
use garden_evm_watcher.Handlers.Orderbook.Ids.{create_id-sum256}
use garden_evm_watcher.Handlers.Orderbook.Created.{
  stored_row, Describes, handle_created_event-Written, read-handle_created_event,
}
use garden_evm_watcher.Handlers.Tests.{database, ctx, store, ctx_store, log}
use garden_evm_watcher.Store.Atomic.{IsAtomic}
use garden_evm_watcher.Handlers.Atomic.{orderbook-IsAtomic}

abbrev order : EvmOrder
order = record {
  source_chain = ascii "bitcoin";
  destination_chain = ascii "ethereum";
  source_asset = [];
  destination_asset = [];
  initiator_source_address = [];
  initiator_destination_address = [];
  source_amount = some (pos 100);
  destination_amount = some (pos 99);
  fee = some (pos 1);
  nonce = some (pos 3);
  min_destination_confirmations = some (pos 6);
  time_lock = some (pos 288);
  secret_hash = ascii "hash";
}

-- An order is unpacked from one byte or more.
abbrev unpack : Bytes → Outcome EvmOrder
unpack [] = err (external (ascii "no data"))
unpack (b ∷ bytes) = ok order

abbrev created_log : Bytes → Log
created_log tail = record {
  address = [];
  topics = [];
  payload = replicate 96 0 ++ tail;
  block_number = 77;
  tx_hash = ascii "tx";
}

abbrev row : CreateOrder
row =
    stored_row memory unpack ctx store ctx_store (created_log (1 ∷ [])) (omega arith) order (pos 6)
      (pos 288) refl refl refl

order_written : (handle_created_event memory unpack ctx (created_log (1 ∷ [])) database).0 ≡ ok tt
unfolding handle_created_event memory store_from_context context_with_store write_create_order
    contains
order_written = refl

handle_created_event-Written_example :
    (r : CreateOrder) × Describes (created_log (1 ∷ [])) order (pos 6) (pos 288) r
    × Adds memory memory_laws r database
        (handle_created_event memory unpack ctx (created_log (1 ∷ [])) database).1
handle_created_event-Written_example =
    handle_created_event-Written memory unpack ctx store ctx_store (created_log (1 ∷ []))
      (omega arith) order (pos 6) (pos 288) refl refl refl memory_laws database order_written

order_read :
    (read_create_order memory store
      (create_id (created_log (1 ∷ [])) order)
      (handle_created_event memory unpack ctx (created_log (1 ∷ [])) database).1).0
    ≡ ok (stamp 9 row)
unfolding handle_created_event memory store_from_context context_with_store write_create_order
    contains read_create_order order_row create_id encode_to_string sum256
order_read = refl

read-handle_created_event_example :
    Describes (created_log (1 ∷ [])) order (pos 6) (pos 288) (stamp 9 row)
unfolding create_id
read-handle_created_event_example =
    read-handle_created_event memory unpack ctx store ctx_store (created_log (1 ∷ [])) (omega arith)
      order (pos 6) (pos 288) refl refl refl memory_laws database (stamp 9 row) order_written
      order_read

create_id-sum256_example :
    (length (create_id log order) ≡ 64)
    × ((create_id log order ≡ create_id (created_log []) order) ↔ (
        sum256 (log.tx_hash ++ order.secret_hash)
        ≡ sum256 ((created_log []).tx_hash ++ order.secret_hash)))
create_id-sum256_example = create_id-sum256 log (created_log []) order order

orderbook-IsAtomic_example :
    IsAtomic memory memory_laws database
      (Orderbook.call memory unpack Orderbook.created ctx (created_log []) database)
orderbook-IsAtomic_example =
    orderbook-IsAtomic memory memory_laws unpack Orderbook.created ctx (created_log []) database
