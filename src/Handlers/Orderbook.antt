-- ===== src/Handlers/Orderbook.antt =====
-- pkg/handlers/orderbook/orderbook.go. The order book's binding (catalogfi/blockchain) and
-- evm.UnpackCreateOrder are no code of the repository: they are parameters.
pub mod Created
pub mod Swaps
pub mod Ids
pub mod Setup
use garden_evm_watcher.Common.{
  ℕ, ℤ, pos, ◌%◌, Bytes, ascii, bytes_comparable, List, [], ◌∷◌, ◌++◌, Option, none, some, Dict,
  lookup, insert, Outcome, ok, err, panic, nil_pointer, slice_out_of_range, ltb, if◌then◌else◌,
  length, drop, magnitude, uint64_mod, ◌>>=◌, Exec, lift, wrap_error, wrapped, Error, Panic,
}
use garden_evm_watcher.Ethereum.{Address, Hash, Log, EthClient}
use garden_evm_watcher.Model.Rows.{BigInt, CreateOrder}
use garden_evm_watcher.Watcher.Types.{ContractConfig}
use garden_evm_watcher.Store.Gorm.{Gorm}
use garden_evm_watcher.Store.Methods.{Store, Context, store_from_context, write_create_order}
use garden_evm_watcher.Handlers.Hex.{encode_to_string}
use garden_evm_watcher.Handlers.Sha256.{sum256}
use garden_evm_watcher.Handlers.Htlc.{event_id, value_of}

-- evm.CreateOrder, an order as the contract's event carries it. A `BigInt` here is a *big.Int.
pub record EvmOrder : Type 0 where
  pub source_chain : Bytes
  pub destination_chain : Bytes
  pub source_asset : Bytes
  pub destination_asset : Bytes
  pub initiator_source_address : Bytes
  pub initiator_destination_address : Bytes
  pub source_amount : BigInt
  pub destination_amount : BigInt
  pub fee : BigInt
  pub nonce : BigInt
  pub min_destination_confirmations : BigInt
  pub time_lock : BigInt
  pub secret_hash : Bytes

-- The handlers that a configuration can hold, by name, and the variable orderBookAbi.
pub data Handler : Type 0 where
  created filled : Handler

pub record Globals : Type 0 where
  pub order_book_abi : Option (Dict Bytes Hash)

unfoldable pub construct_handlers : Dict Bytes Hash → Dict Hash Handler
construct_handlers abi =
    insert (event_id abi (ascii "Filled")) filled
      (insert (event_id abi (ascii "Created")) created [])

assign_abi : Outcome (Dict Bytes Hash) → Exec Globals (Dict Bytes Hash)
assign_abi r globals =
    (wrap_error (ascii "failed to get ABI") r, record globals { order_book_abi = value_of r })

-- The client is not used. `get_abi` is ob.OrderbookMetaData.GetAbi().
unfoldable pub orderbook_config :
    Outcome (Dict Bytes Hash) → Address → EthClient → Exec Globals (ContractConfig Handler)
unfolding assign_abi
orderbook_config get_abi addr client = do
  abi ← assign_abi get_abi
  lift (ok (record { address = addr; event_handlers = construct_handlers abi }))

-- x.Uint64(): the low 64 bits of |x|.
abbrev pub uint64 : BigInt → Outcome ℕ
uint64 none = panic nil_pointer
uint64 (some x) = ok (magnitude x % uint64_mod)

-- data[96:]
abbrev pub slice_from_96 : Bytes → Outcome Bytes
slice_from_96 bytes = if ltb (length bytes) 96 then panic slice_out_of_range else ok (drop 96 bytes)

unfoldable pub create_id : Log → EvmOrder → Bytes
create_id log order = encode_to_string (sum256 (log.tx_hash ++ order.secret_hash))

-- The row, with Go's zero values in the fields that the composite literal leaves out.
unfoldable pub order_row : Log → EvmOrder → ℕ → ℕ → CreateOrder
order_row log order min_destination_confirmations time_lock = record {
  created_at = 0;
  updated_at = 0;
  deleted_at = none;
  create_id = create_id log order;
  block_number = some (pos log.block_number);
  source_chain = order.source_chain;
  destination_chain = order.destination_chain;
  source_asset = order.source_asset;
  destination_asset = order.destination_asset;
  initiator_source_address = order.initiator_source_address;
  initiator_destination_address = order.initiator_destination_address;
  source_amount = order.source_amount;
  destination_amount = order.destination_amount;
  fee = order.fee;
  nonce = order.nonce;
  min_destination_confirmations = min_destination_confirmations;
  time_lock = time_lock;
  secret_hash = order.secret_hash;
}

module _ {Handle Db : Type 0} (g : Gorm Handle Db)
    (unpack_create_order : Bytes → Outcome EvmOrder) where
  unfoldable pub handle_created_event : Context Handle → Log → Exec Db (Unit {0})
  handle_created_event ctx log = do
    db ← lift (store_from_context ctx)
    bytes ← lift (slice_from_96 log.payload)
    order ←
        lift (wrap_error (ascii "failed to unpack create order event") (unpack_create_order bytes))
    min_destination_confirmations ← lift (uint64 order.min_destination_confirmations)
    time_lock ← lift (uint64 order.time_lock)
    write_create_order g db (order_row log order min_destination_confirmations time_lock)

  -- It prints a line, which is not modelled.
  unfoldable pub handle_filled_event : Context Handle → Log → Exec Db (Unit {0})
  handle_filled_event ctx log = lift (ok tt)

  unfoldable pub call : Handler → Context Handle → Log → Exec Db (Unit {0})
  call created = handle_created_event
  call filled = handle_filled_event
