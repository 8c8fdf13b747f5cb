-- ===== src/Watcher/Types.antt =====
-- pkg/watcher/watcher.go: the configurations, the jobs and the `Watcher` itself. `H` is the type of
-- an `EventHandler`, which the watcher stores and passes on.
use garden_evm_watcher.Common.{ℕ, ℤ, Bool, List, Option, Dict}
use garden_evm_watcher.Ethereum.{Address, Hash, Log, EthClient}

pub record ContractConfig (H : Type 0) : Type 0 where
  pub address : Address
  pub event_handlers : Dict Hash H

-- Pointers that may be nil are options. The logger's output is not modelled, but for the warnings
-- about dropped events, which `Traffic` keeps.
pub record WatcherConfig (H : Type 0) : Type 0 where
  pub eth_client : Option EthClient
  pub contracts : List (ContractConfig H)
  pub max_block_span : ℕ
  pub polling_interval : ℤ
  pub logger : Option (Unit {0})
  pub start_block : ℕ
  pub worker_count : ℤ
  pub queue_size : ℤ

pub record EventJob (H : Type 0) : Type 0 where
  pub event : Log
  pub handler : H

-- The channel `jobQueue`, oldest job first, with the jobs that workers have received from it and
-- those that a warning reports as dropped.
pub record Traffic (H : Type 0) : Type 0 where
  pub queue : List (EventJob H)
  pub closed : Bool
  pub received : List (EventJob H)
  pub dropped : List (EventJob H)

-- The channel `quit`.
pub data Quit : Type 0 where
  open_quit closed_quit nil_quit : Quit

-- `workers` and `watchers` are the counters of `workerWg` and `watcherWg`.
pub record Watcher (H : Type 0) : Type 0 where
  pub config : WatcherConfig H
  pub current_block : ℕ
  pub quit : Quit
  pub traffic : Traffic H
  pub watchers : ℕ
  pub workers : ℕ
  pub addresses : List Address
  pub topics : List Hash
  pub address_to_handlers : Dict Address (Dict Hash H)
