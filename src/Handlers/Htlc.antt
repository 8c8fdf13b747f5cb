-- ===== src/Handlers/Htlc.antt =====
-- pkg/handlers/htlc/htlc.go. The contract's Go binding (catalogfi/blockchain, gardenhtlc) and
-- `common.Hash.String` of go-ethereum are no code of the repository: they are parameters.
pub mod Events
pub mod Order
pub mod Setup
pub mod Workers
use garden_evm_watcher.Common.{
  ℕ, ℤ, pos, Bytes, ascii, bytes_comparable, List, [], ◌∷◌, Option, none, some, Dict, lookup,
  insert, Outcome, ok, err, panic, nil_pointer, wrapped, Error, Panic, ◌>>=◌, Exec, lift,
  wrap_error,
}
use garden_evm_watcher.Ethereum.{Address, Hash, Log, EthClient}
use garden_evm_watcher.Model.Rows.{BigInt}
use garden_evm_watcher.Watcher.Types.{ContractConfig}
use garden_evm_watcher.Store.Gorm.{Gorm}
use garden_evm_watcher.Store.Methods.{
  Store, Context, store_from_context, update_swap_initiate, update_swap_redeem, update_swap_refund,
}
use garden_evm_watcher.Handlers.Hex.{encode_to_string}

-- gardenhtlc.GardenHTLCInitiated, …Redeemed and …Refunded, with the fields that are read.
pub record Initiated : Type 0 where
  pub order_id : Bytes
  pub amount : BigInt
  pub raw : Log

pub record Redeemed : Type 0 where
  pub order_id : Bytes
  pub secret : Bytes
  pub raw : Log

pub record Refunded : Type 0 where
  pub order_id : Bytes
  pub raw : Log

-- *gardenhtlc.GardenHTLCFilterer
pub record Filterer : Type 0 where
  pub parse_initiated : Log → Outcome Initiated
  pub parse_redeemed : Log → Outcome Redeemed
  pub parse_refunded : Log → Outcome Refunded

-- The functions of the binding that HTLCConfig calls; `Contract` is *gardenhtlc.GardenHTLC.
pub record Binding (Contract : Type 0) : Type 0 where
  pub get_abi : Outcome (Dict Bytes Hash)
  pub new_filterer : Address → EthClient → Outcome Filterer
  pub new_contract : Address → EthClient → Outcome Contract
  pub token : Contract → Outcome Address

-- The handlers that a configuration can hold. A Go function value that is stored in a map is its
-- name here; `call` says what it does.
pub data Handler : Type 0 where
  initiated redeemed refunded : Handler

-- The package's variables gardenHtlcAbi and gardenHtlcEventFilter.
pub record Globals : Type 0 where
  pub garden_htlc_abi : Option (Dict Bytes Hash)
  pub garden_htlc_event_filter : Option Filterer

abbrev pub zero_hash : Hash
zero_hash =
    0 ∷ 0 ∷ 0 ∷ 0 ∷ 0 ∷ 0 ∷ 0 ∷ 0 ∷ 0 ∷ 0 ∷ 0 ∷ 0 ∷ 0 ∷ 0 ∷ 0 ∷ 0 ∷ 0 ∷ 0 ∷ 0 ∷ 0 ∷ 0 ∷ 0 ∷ 0 ∷ 0
    ∷ 0 ∷ 0 ∷ 0 ∷ 0 ∷ 0 ∷ 0 ∷ 0 ∷ 0 ∷ []

-- abi.Events[name].ID; a name that is missing gives Go's zero value.
abbrev pub event_id : Dict Bytes Hash → Bytes → Hash
event_id abi name = elim (lookup name abi) [ some id ↦ id | none ↦ zero_hash ]

unfoldable pub construct_handlers : Dict Bytes Hash → Dict Hash Handler
construct_handlers abi = insert (event_id abi (ascii "Refunded")) refunded (
    insert (event_id abi (ascii "Redeemed")) redeemed
      (insert (event_id abi (ascii "Initiated")) initiated []))

abbrev pub value_of : {A : Type 0} → Outcome A → Option A
value_of (ok a) = some a
value_of _ = none

-- `x, err = f(); if err != nil { return …, fmt.Errorf("message: %v", err) }` for a package
-- variable x, which is nil after an error.
assign_abi : Outcome (Dict Bytes Hash) → Exec Globals (Dict Bytes Hash)
assign_abi r globals =
    (wrap_error (ascii "failed to get ABI") r, record globals { garden_htlc_abi = value_of r })

assign_filterer : Outcome Filterer → Exec Globals Filterer
assign_filterer r globals = (
  wrap_error (ascii "failed to instantiate filterer") r,
  record globals { garden_htlc_event_filter = value_of r },
)

module _ {Contract : Type 0} (b : Binding Contract) where
  unfoldable pub htlc_config : Address → EthClient → Exec Globals (ContractConfig Handler)
  unfolding assign_abi assign_filterer
  htlc_config addr client = do
    abi ← assign_abi b.get_abi
    filterer ← assign_filterer (b.new_filterer addr client)
    contract ←
        lift (wrap_error (ascii "failed to instantiate contract") (b.new_contract addr client))
    token ← lift (
        wrap_error (ascii "failed to call Token function, possibly not a GardenHTLC contract")
          (b.token contract))
    lift (ok (record { address = addr; event_handlers = construct_handlers abi }))

-- The filterer of the package variable; a nil one makes the call panic.
abbrev pub filterer_of : {Db : Type 0} → Globals → Exec Db Filterer
filterer_of globals = elim globals.garden_htlc_event_filter [
  | none ↦ lift (panic nil_pointer)
  | some filterer ↦ lift (ok filterer)
]

module _ {Handle Db : Type 0} (g : Gorm Handle Db) (hash_text : Hash → Bytes) where
  -- new(big.Int).SetUint64(event.Raw.BlockNumber)
  abbrev block_of : Log → BigInt
  block_of log = some (pos log.block_number)

  unfoldable pub apply_initiated : Store Handle → Initiated → Exec Db (Unit {0})
  apply_initiated db event =
      update_swap_initiate g db (encode_to_string event.order_id) (hash_text event.raw.tx_hash)
        event.amount (block_of event.raw)

  unfoldable pub handle_initiated_event : Globals → Context Handle → Log → Exec Db (Unit {0})
  handle_initiated_event globals ctx log = do
    db ← lift (store_from_context ctx)
    filterer ← filterer_of globals
    event ← lift (filterer.parse_initiated log)
    apply_initiated db event

  unfoldable pub apply_redeemed : Store Handle → Redeemed → Exec Db (Unit {0})
  apply_redeemed db event =
      update_swap_redeem g db (encode_to_string event.order_id) (hash_text event.raw.tx_hash)
        event.secret (block_of event.raw)

  unfoldable pub handle_redeemed_event : Globals → Context Handle → Log → Exec Db (Unit {0})
  handle_redeemed_event globals ctx log = do
    db ← lift (store_from_context ctx)
    filterer ← filterer_of globals
    event ← lift (filterer.parse_redeemed log)
    apply_redeemed db event

  unfoldable pub apply_refunded : Store Handle → Refunded → Exec Db (Unit {0})
  apply_refunded db event =
      update_swap_refund g db (encode_to_string event.order_id) (hash_text event.raw.tx_hash)
        (block_of event.raw)

  unfoldable pub handle_refunded_event : Globals → Context Handle → Log → Exec Db (Unit {0})
  handle_refunded_event globals ctx log = do
    db ← lift (store_from_context ctx)
    filterer ← filterer_of globals
    event ← lift (filterer.parse_refunded log)
    apply_refunded db event

  -- A call of a stored handler.
  unfoldable pub call : Handler → Globals → Context Handle → Log → Exec Db (Unit {0})
  call initiated = handle_initiated_event
  call redeemed = handle_redeemed_event
  call refunded = handle_refunded_event
