-- ===== src/Model/Rows.antt =====
-- pkg/model/model.go: the rows of the five tables, field by field.
--
-- A `string` and a `[]byte` are lists of bytes, a `time.Time` is a number, `gorm.DeletedAt` is a time
-- or NULL, a `BigInt` wraps a pointer that may be nil, and a `float64` is kept as its 64 bits.
use garden_evm_watcher.Common.{ℕ, ℤ, Bytes, List, Option}

abbrev pub BigInt : Type 0
BigInt = Option ℤ

pub record Strategy : Type 0 where
  pub created_at : ℕ
  pub updated_at : ℕ
  pub deleted_at : Option ℕ
  pub filler : Bytes
  pub source_chain_address : Bytes
  pub dest_chain_address : Bytes
  pub source_chain : Bytes
  pub dest_chain : Bytes
  pub source_asset : Bytes
  pub dest_asset : Bytes
  pub makers : List Bytes
  pub min_amount : BigInt
  pub max_amount : BigInt
  pub min_source_time_lock : ℕ
  pub min_price : ℕ
  pub fee : ℕ

pub record CreateOrder : Type 0 where
  pub created_at : ℕ
  pub updated_at : ℕ
  pub deleted_at : Option ℕ
  pub create_id : Bytes
  pub block_number : BigInt
  pub source_chain : Bytes
  pub destination_chain : Bytes
  pub source_asset : Bytes
  pub destination_asset : Bytes
  pub initiator_source_address : Bytes
  pub initiator_destination_address : Bytes
  pub source_amount : BigInt
  pub destination_amount : BigInt
  pub fee : BigInt
  pub nonce : BigInt
  pub min_destination_confirmations : ℕ
  pub time_lock : ℕ
  pub secret_hash : Bytes

pub record FillOrder : Type 0 where
  pub created_at : ℕ
  pub updated_at : ℕ
  pub deleted_at : Option ℕ
  pub fill_id : Bytes
  pub block_timestamp : BigInt
  pub source_chain : Bytes
  pub destination_chain : Bytes
  pub source_asset : Bytes
  pub destination_asset : Bytes
  pub redeemer_source_address : Bytes
  pub redeemer_destination_address : Bytes
  pub source_amount : BigInt
  pub destination_amount : BigInt
  pub fee : BigInt
  pub nonce : BigInt
  pub min_source_confirmations : ℕ
  pub time_lock : ℕ

pub record Swap : Type 0 where
  pub created_at : ℕ
  pub updated_at : ℕ
  pub deleted_at : Option ℕ
  pub swap_id : Bytes
  pub chain : Bytes
  pub asset : Bytes
  pub initiator : Bytes
  pub redeemer : Bytes
  pub time_lock : BigInt
  pub filled_amount : BigInt
  pub amount : BigInt
  pub secret_hash : Bytes
  pub secret : Bytes
  pub initiate_tx_hash : Bytes
  pub redeem_tx_hash : Bytes
  pub refund_tx_hash : Bytes
  pub initiate_block_number : BigInt
  pub redeem_block_number : BigInt
  pub refund_block_number : BigInt

pub record MatchedOrder : Type 0 where
  pub created_at : ℕ
  pub updated_at : ℕ
  pub deleted_at : Option ℕ
  pub create_order_id : Bytes
  pub fill_order_id : Bytes
  pub source_swap_id : Bytes
  pub destination_swap_id : Bytes
  pub source_swap : Swap
  pub destination_swap : Swap
  pub create_order : CreateOrder
  pub fill_order : FillOrder
