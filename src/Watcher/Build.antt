-- ===== src/Watcher/Build.antt =====
-- pkg/watcher/watcher.go: NewContractConfig and NewWatcher.
pub mod Topics
pub mod Contracts
pub mod Query
pub mod Validation
pub mod Events
use garden_evm_watcher.Common.{
  ℕ, Bool, true, false, if◌then◌else◌, ◌∷◌, [], ◌++◌, List, Option, none, some, Bytes, Dict, keys,
  lookup, insert, bytes_comparable, Outcome, ok, err, nonpositive, eth_client_required,
  logger_required, bad_worker_count, bad_queue_size, event_not_in_abi, Error,
}
use garden_evm_watcher.Ethereum.{Address, Hash}
use garden_evm_watcher.Watcher.Types.{ContractConfig, WatcherConfig, Watcher, open_quit}

module _ {H : Type 0} where
  -- `for eventName, handler := range handlers`; `abi` is `contractABI.Events`, its IDs only.
  unfoldable pub add_handlers :
      Dict Bytes Hash → Dict Bytes H → ContractConfig H → Outcome (ContractConfig H)
  add_handlers abi [] config = ok config
  add_handlers abi ((event_name, handler) ∷ handlers) config = elim (lookup event_name abi) [
    | none ↦ err (event_not_in_abi event_name)
    | some id ↦
        add_handlers abi handlers
          (record config { event_handlers = insert id handler config.event_handlers })
  ]

  unfoldable pub new_contract_config :
      Address → Dict Bytes Hash → Dict Bytes H → Outcome (ContractConfig H)
  unfolding add_handlers
  new_contract_config address abi handlers =
      add_handlers abi handlers (record { address = address; event_handlers = [] })

-- `for eventID := range contract.EventHandlers`: the topics, and `topicsMap`.
unfoldable pub add_topics : List Hash → List Hash × Dict Hash Bool → List Hash × Dict Hash Bool
unfolding lookup insert
add_topics [] (topics, seen) = (topics, seen)
add_topics (id ∷ ids) (topics, seen) = elim (lookup id seen) [
  | some true ↦ add_topics ids (topics, seen)
  | some false ↦ add_topics ids (topics ++ id ∷ [], insert id true seen)
  | none ↦ add_topics ids (topics ++ id ∷ [], insert id true seen)
]

module _ {H : Type 0} where
  -- `for _, contract := range config.Contracts`
  unfoldable pub add_contracts :
      List (ContractConfig H) → Watcher H × Dict Hash Bool → Watcher H × Dict Hash Bool
  unfolding add_topics insert
  add_contracts [] (w, seen) = (w, seen)
  add_contracts (contract ∷ contracts) (w, seen) =
      let (topics, seen') = add_topics (keys contract.event_handlers) (w.topics, seen) in
      add_contracts contracts (
        record w {
          addresses = w.addresses ++ contract.address ∷ [];
          topics = topics;
          address_to_handlers =
              insert contract.address contract.event_handlers w.address_to_handlers;
        },
        seen',
      )

  unfoldable pub fresh_watcher : WatcherConfig H → Watcher H
  fresh_watcher config = record {
    config = config;
    current_block = 0;
    quit = open_quit;
    traffic = record { queue = []; closed = false; received = []; dropped = [] };
    watchers = 0;
    workers = 0;
    addresses = [];
    topics = [];
    address_to_handlers = [];
  }

  unfoldable pub new_watcher : WatcherConfig H → Outcome (Watcher H)
  unfolding fresh_watcher
  new_watcher config = elim config.eth_client [
    | none ↦ err eth_client_required
    | some client ↦ elim config.logger [
      | none ↦ err logger_required
      | some logger ↦
          if nonpositive config.worker_count
          then err bad_worker_count
          else if nonpositive config.queue_size
          then err bad_queue_size
          else ok (add_contracts config.contracts (fresh_watcher config, [])).0
    ]
  ]
