-- ===== src/Builder/Tests.antt =====
-- The builder on a configuration of two chains.
mod Delivered
use garden_evm_watcher.Common.{
  pos, ◌≡◌, ◌≢◌, refl, All, false, panic, Panic, arith, Bytes, ascii, List, [], ◌∷◌, Dict, Outcome,
  ok, err, external, length, none,
}
use garden_evm_watcher.Ethereum.{EthClient}
use garden_evm_watcher.Watcher.Types.{ContractConfig, Watcher}
use garden_evm_watcher.Watcher.Build.{new_watcher, fresh_watcher, add_contracts}
use garden_evm_watcher.Config.{ChainConfig, Config, garden_htlc, orderbook}
use garden_evm_watcher.Handlers.Htlc
use garden_evm_watcher.Handlers.Htlc.Setup.{Configured, htlc_config-Configured}
use garden_evm_watcher.Builder.Ready.Watchers.{IsReady, setup_watchers-IsReady}
use garden_evm_watcher.Handlers.Htlc.{Binding, Filterer, htlc_config}
use garden_evm_watcher.Handlers.Orderbook.{orderbook_config}
use garden_evm_watcher.Builder
use garden_evm_watcher.Builder.{
  Handler, Globals, Outside, contract_handler, get_config, add_chains, setup_watchers,
  watcher_config,
}
use garden_evm_watcher.Builder.Run.{
  with_store, start_watchers, Running, Machine, no_globals, run_watcher, run_main, config_file,
}
use garden_evm_watcher.Builder.Run.Started.{IsInterval, some_time, Runs, run_watcher-Runs}
use garden_evm_watcher.Watcher.Loop.{start}
use garden_evm_watcher.Store.Methods.{background, with_cancel, context_with_store, new_store}
use garden_evm_watcher.Builder.Run.Invalid.{run_main-invalid}
use garden_evm_watcher.Json.{lex, lex_step, open_token, string_step, number_step}
use garden_evm_watcher.Json.Text.{unquote, unquote_from, unquote_step, rune_tail}
use garden_evm_watcher.Json.Parse.{parse_json, parse_from, parse_step}
use garden_evm_watcher.Store.Memory.{Memory, memory}

abbrev client : EthClient
client = record { block_number = λ t. ok 5; filter_logs = λ t q. ok [] }

abbrev filterer : Filterer
filterer = record {
  parse_initiated = λ log. err (external (ascii "no event"));
  parse_redeemed = λ log. err (external (ascii "no event"));
  parse_refunded = λ log. err (external (ascii "no event"));
}

abbrev binding : Binding (Unit {0})
binding = record {
  get_abi = ok (
      (ascii "Initiated", ascii "i")
      ∷ (ascii "Redeemed", ascii "r")
      ∷ (ascii "Refunded", ascii "f")
      ∷ []);
  new_filterer = λ a c. ok filterer;
  new_contract = λ a c. ok tt;
  token = λ c. ok (ascii "token");
}

abbrev outside : Outside (Unit {0})
outside = record {
  htlc_binding = binding;
  orderbook_abi = ok ((ascii "Created", ascii "c") ∷ (ascii "Filled", ascii "d") ∷ []);
  dial = λ url. ok client;
  hex_to_address = λ text. text;
}

abbrev chain : Dict Bytes Bytes → ChainConfig
chain contracts = record {
  contracts = contracts;
  url = ascii "http://localhost:8545";
  start_block = 3;
  max_block_span = 1000;
  polling_interval = pos 5000;
}

abbrev config : Config
config = record {
  psql_db = ascii "postgres";
  chains =
      (ascii "ethereum", chain ((ascii "0xaa", garden_htlc) ∷ (ascii "0xbb", orderbook) ∷ []))
      ∷ (ascii "garden", chain ((ascii "0xcc", ascii "gardenhtlc") ∷ []))
      ∷ [];
}

abbrev result_of : Outcome (List (Watcher Handler)) × Globals → List (Watcher Handler)
result_of (ok ws, s) = ws
result_of _ = []

two_watchers : length (result_of (setup_watchers outside config no_globals)) ≡ 2
unfolding setup_watchers add_chains get_config contract_handler htlc_config orderbook_config
    new_watcher fresh_watcher Builder.add_contracts add_contracts watcher_config
two_watchers = refl

setup_watchers_ok : setup_watchers outside config no_globals ≡ (
  ok (result_of (setup_watchers outside config no_globals)),
  (setup_watchers outside config no_globals).1,
)
unfolding setup_watchers add_chains get_config contract_handler htlc_config orderbook_config
    new_watcher fresh_watcher Builder.add_contracts add_contracts watcher_config
setup_watchers_ok = refl

abbrev database : Memory
database = record { swaps = []; orders = []; clock = 0; broken = false }

abbrev machine : Machine (Unit {0})
machine = record { new_logger = ok tt; open_database = λ url. ok tt }

config-IsInterval : All (λ (p : Bytes × ChainConfig). IsInterval p.1.polling_interval) config.chains
config-IsInterval =
    (some_time 5000 (omega arith) (omega arith), (some_time 5000 (omega arith) (omega arith), tt))

abbrev running_of : Outcome (Running (Unit {0})) → Running (Unit {0})
running_of (ok r) = r
running_of _ = record { context = background; watchers = [] }

migrated : (memory.auto_migrate tt database).0 ≡ ok tt
unfolding memory
migrated = refl

run_returned :
    (run_watcher memory outside machine config database).0
    ≡ ok (running_of (run_watcher memory outside machine config database).0)
unfolding run_watcher with_store start_watchers start new_store memory setup_watchers add_chains
    get_config contract_handler htlc_config orderbook_config new_watcher fresh_watcher
    Builder.add_contracts add_contracts watcher_config
run_returned = refl

run_watcher-Runs_example :
    (h : Unit {0}) × (machine.open_database config.psql_db ≡ ok h)
    × Runs memory outside config h
        (running_of (run_watcher memory outside machine config database).0)
run_watcher-Runs_example =
    run_watcher-Runs memory outside machine config database
      (running_of (run_watcher memory outside machine config database).0) config-IsInterval
      run_returned

setup_watchers-IsReady_example :
    All
      (IsReady (setup_watchers outside config no_globals).1)
      (result_of (setup_watchers outside config no_globals))
setup_watchers-IsReady_example =
    setup_watchers-IsReady outside config (result_of (setup_watchers outside config no_globals))
      no_globals (setup_watchers outside config no_globals).1 setup_watchers_ok

abbrev htlc_configured : Outcome (ContractConfig Htlc.Handler) × Htlc.Globals
htlc_configured = htlc_config binding (ascii "0xaa") client no_globals.htlc

abbrev configured_of :
    Outcome (ContractConfig Htlc.Handler) × Htlc.Globals → ContractConfig Htlc.Handler
configured_of (ok c, s) = c
configured_of _ = record { address = []; event_handlers = [] }

htlc_config_ok : htlc_configured ≡ (ok (configured_of htlc_configured), htlc_configured.1)
unfolding htlc_config
htlc_config_ok = refl

htlc_config-Configured_example :
    Configured binding (ascii "0xaa") client (configured_of htlc_configured) htlc_configured.1
htlc_config-Configured_example =
    htlc_config-Configured binding (ascii "0xaa") client no_globals.htlc htlc_configured.1
      (configured_of htlc_configured) htlc_config_ok

abbrev unfinished : Bytes
unfinished = ascii "{ \"psqlDb\": \"postgres\", "

unfinished_invalid : parse_json unfinished ≡ none
unfolding parse_json parse_from parse_step lex lex_step open_token string_step number_step unquote
    unquote_from unquote_step rune_tail
unfinished_invalid = refl

run_main-invalid_example :
    (run_main memory outside config_file (λ file. ok unfinished) machine database).0
    ≡ ok (record {
      context = context_with_store (with_cancel background) (record { db = tt });
      watchers = [];
    })
run_main-invalid_example =
    run_main-invalid memory outside config_file unfinished (λ file. ok unfinished) machine tt
      database refl unfinished_invalid refl refl migrated
