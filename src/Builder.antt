-- ===== src/Builder.antt =====
-- cmd/builder/builder.go: the watchers of the configured chains. Dialling a node and
-- `common.HexToAddress` of go-ethereum are parameters.
pub mod Effects
pub mod Delivered
pub mod Completed
pub mod Ready
pub mod Run
pub mod Setup
mod Tests
use garden_evm_watcher.Common.{
  ℕ, zero, suc, ℤ, pos, negsuc, ◌+◌, ◌-◌, ◌*◌, ◌%◌, ◌^◌, Bytes, ascii, bytes_comparable, ◌==◌,
  if◌then◌else◌, List, [], ◌∷◌, ◌++◌, map, Option, none, some, Dict, Outcome, ok, err, panic,
  to_int64, uint64_mod, replicate, Exec, lift, ◌>>=◌, continue, Error, Panic,
}
use garden_evm_watcher.Ethereum.{Address, Hash, EthClient}
use garden_evm_watcher.Watcher.Types.{ContractConfig, WatcherConfig, Watcher}
use garden_evm_watcher.Watcher.Build.{new_watcher}
use garden_evm_watcher.Config.{AbiType, garden_htlc, orderbook, ChainConfig, Config}
use garden_evm_watcher.Handlers.Htlc
use garden_evm_watcher.Handlers.Htlc.{Binding, htlc_config}
use garden_evm_watcher.Handlers.Orderbook
use garden_evm_watcher.Handlers.Orderbook.{orderbook_config}

-- The handlers of both packages.
pub data Handler : Type 0 where
  of_htlc : Htlc.Handler → Handler
  of_orderbook : Orderbook.Handler → Handler

-- The variables of both packages.
pub record Globals : Type 0 where
  pub htlc : Htlc.Globals
  pub orderbook : Orderbook.Globals

-- A configuration of one package among those of both.
abbrev pub tag : {H : Type 0} → (H → Handler) → ContractConfig H → ContractConfig Handler
tag f c = record { address = c.address; event_handlers = map (λ p. (p.0, f p.1)) c.event_handlers }

abbrev pub on_htlc : {A : Type 0} → Globals → Outcome A × Htlc.Globals → Outcome A × Globals
on_htlc s (r, h) = (r, record s { htlc = h })

abbrev pub on_orderbook :
    {A : Type 0} → Globals → Outcome A × Orderbook.Globals → Outcome A × Globals
on_orderbook s (r, o) = (r, record s { orderbook = o })

-- watcher.ContractConfig{}
abbrev pub empty_config : ContractConfig Handler
empty_config = record { address = replicate 20 0; event_handlers = [] }

-- time.Duration(n) * time.Millisecond, in int64
abbrev pub milliseconds : ℤ → ℤ
milliseconds (pos n) = to_int64 (n * 1000000 % uint64_mod)
milliseconds (negsuc n) = to_int64 ((uint64_mod - suc n * 1000000 % uint64_mod) % uint64_mod)

-- What the process gets from outside: the bindings of the contracts, and the nodes.
pub record Outside (Contract : Type 0) : Type 0 where
  pub htlc_binding : Binding Contract
  pub orderbook_abi : Outcome (Dict Bytes Hash)
  pub dial : Bytes → Outcome EthClient
  pub hex_to_address : Bytes → Address

-- What getConfig returns at the end.
unfoldable pub watcher_config :
    ChainConfig → EthClient → List (ContractConfig Handler) → WatcherConfig Handler
watcher_config chain client handlers = record {
  eth_client = some client;
  contracts = handlers;
  max_block_span = chain.max_block_span;
  polling_interval = milliseconds chain.polling_interval;
  logger = some tt;
  start_block = chain.start_block;
  worker_count = pos 10;
  queue_size = pos 1000;
}

module _ {Contract : Type 0} (o : Outside Contract) where
  -- The `switch abiType`; it has no default.
  unfoldable pub contract_handler :
      AbiType → Bytes → EthClient → Exec Globals (ContractConfig Handler)
  contract_handler abi_type contract_addr client =
      if abi_type == orderbook
      then (λ s. on_orderbook s (
          continue
            (orderbook_config o.orderbook_abi (o.hex_to_address contract_addr) client s.orderbook)
            (λ c. lift (ok (tag of_orderbook c)))))
      else if abi_type == garden_htlc
      then (λ s. on_htlc s (
          continue (htlc_config o.htlc_binding (o.hex_to_address contract_addr) client s.htlc)
            (λ c. lift (ok (tag of_htlc c)))))
      else lift (ok empty_config)

  -- for contractAddr, abiType := range chainConfig.Contracts
  unfoldable pub add_contracts :
      Dict Bytes AbiType
      → EthClient
      → List (ContractConfig Handler)
      → Exec Globals (List (ContractConfig Handler))
  add_contracts [] client handlers = lift (ok handlers)
  add_contracts ((contract_addr, abi_type) ∷ contracts) client handlers = do
    contract ← contract_handler abi_type contract_addr client
    add_contracts contracts client (handlers ++ contract ∷ [])

  unfoldable pub get_config : ChainConfig → EthClient → Exec Globals (WatcherConfig Handler)
  get_config chain client = do
    handlers ← add_contracts chain.contracts client []
    lift (ok (watcher_config chain client handlers))

  -- for chainName, chainConfig := range cfg.Chains
  unfoldable pub add_chains :
      Dict Bytes ChainConfig → List (Watcher Handler) → Exec Globals (List (Watcher Handler))
  add_chains [] watchers = lift (ok watchers)
  add_chains ((name, chain) ∷ chains) watchers = do
    client ← lift (o.dial chain.url)
    config ← get_config chain client
    w ← lift (new_watcher config)
    add_chains chains (watchers ++ w ∷ [])

  unfoldable pub setup_watchers : Config → Exec Globals (List (Watcher Handler))
  setup_watchers cfg = add_chains cfg.chains []
