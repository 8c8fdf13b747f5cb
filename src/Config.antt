-- ===== src/Config.antt =====
-- cmd/config/config.go: the types.
pub mod Decode
pub mod Load
pub mod Print
mod Tests
use garden_evm_watcher.Common.{ℕ, ℤ, Bytes, ascii, Dict}

abbrev pub AbiType : Type 0
AbiType = Bytes

abbrev pub garden_htlc : AbiType
garden_htlc = ascii "htlc"

abbrev pub orderbook : AbiType
orderbook = ascii "orderbook"

-- The polling interval is an int64, in milliseconds.
pub record ChainConfig : Type 0 where
  pub contracts : Dict Bytes AbiType
  pub url : Bytes
  pub start_block : ℕ
  pub max_block_span : ℕ
  pub polling_interval : ℤ

pub record Config : Type 0 where
  pub psql_db : Bytes
  pub chains : Dict Bytes ChainConfig
