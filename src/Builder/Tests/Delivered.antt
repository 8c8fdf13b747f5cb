-- ===== src/Builder/Tests/Delivered.antt =====
-- A watcher of two contracts, its workers and a database with one swap.
mod Completed
use garden_evm_watcher.Common.{
  pos, ◌≡◌, refl, sym, ◌∙◌, false, Bytes, ascii, List, [], ◌∷◌, map, none, some, Outcome, ok, err,
  arith, lookup, insert, bytes_comparable, ℕ_discrete, external,
}
use mathlib.Core.List.{Mem, forall_mem-cons, not-mem-nil, filter_map}
use garden_evm_watcher.Ethereum.{Log, Hash, EthClient}
use garden_evm_watcher.Watcher.Types.{ContractConfig, Watcher, EventJob, open_quit}
use garden_evm_watcher.Watcher.Build.{new_watcher, fresh_watcher, add_contracts, add_topics}
use garden_evm_watcher.Watcher.Build.Contracts.{IsBuiltFrom}
use garden_evm_watcher.Watcher.Build.Validation.{new_watcher_correct}
use garden_evm_watcher.Watcher.Dispatch.{dispatch, find_job, try_send, receive}
use garden_evm_watcher.Watcher.Poll.{
  block_range, process_all_contract_events, poll_client, poll_with, filter_query, poll_events,
}
use garden_evm_watcher.Watcher.Loop.{start, loop_step, after_poll}
use garden_evm_watcher.Watcher.System.{System, selecting-IsAlive, started, polls, worker_receives}
use garden_evm_watcher.Watcher.Delivery.{
  Service, worker_state, ServiceReachable, at_start, after, moves, handles,
}
use garden_evm_watcher.Watcher.Delivery.Chain.{IsNode, select}
use garden_evm_watcher.Model.Rows.{Swap}
use garden_evm_watcher.Store.Methods.{
  Store, update_swap_initiate, store_from_context, context_with_store,
}
use garden_evm_watcher.Store.Memory.{
  Memory, memory, steady_memory, steady_memory_laws, steady_memory-IsReliable,
}
use garden_evm_watcher.Handlers.Hex.{encode_to_string}
use garden_evm_watcher.Handlers.Htlc
use garden_evm_watcher.Handlers.Htlc.{Filterer}
use garden_evm_watcher.Handlers.Htlc.Events.{SwapEvent}
use garden_evm_watcher.Handlers.Htlc.Order.{erase, apply_events, Agree}
use garden_evm_watcher.Handlers.Orderbook
use garden_evm_watcher.Handlers.Orderbook.{EvmOrder}
use garden_evm_watcher.Watcher.Worker.{run_jobs, working, after_job, after_job-ok}
use garden_evm_watcher.Config.{ChainConfig}
use garden_evm_watcher.Builder.{Handler, Globals, of_htlc, of_orderbook, watcher_config}
use garden_evm_watcher.Builder.Effects.{call_handler, events_of, run_jobs-apply_events}
use garden_evm_watcher.Builder.Delivered.{handler_context, settled-apply_events}

abbrev initiation : Log
initiation = record {
  address = ascii "0xaa";
  topics = ascii "i" ∷ [];
  payload = [];
  block_number = 3;
  tx_hash = ascii "tx";
}

abbrev fill : Log
fill = record initiation { address = ascii "0xbb"; topics = ascii "d" ∷ []; block_number = 4 }

abbrev logs : List Log
logs = initiation ∷ fill ∷ []

abbrev node : EthClient
node = record { block_number = λ t. ok 9; filter_logs = λ t q. ok (select q logs) }

node-IsNode : IsNode node logs
node-IsNode = record {
  fits = λ t n e. ground (arith, e);
  answers = λ t n f l q logs known from_block to_block reached e. cc;
}

abbrev chain : ChainConfig
chain = record {
  contracts = [];
  url = ascii "https://node";
  start_block = 0;
  max_block_span = 100;
  polling_interval = pos 5000;
}

abbrev handlers : List (ContractConfig Handler)
handlers =
    record { address = ascii "0xaa"; event_handlers = (ascii "i", of_htlc Htlc.initiated) ∷ [] }
    ∷ record {
      address = ascii "0xbb";
      event_handlers = (ascii "d", of_orderbook Orderbook.filled) ∷ [];
    }
    ∷ []

abbrev two : Watcher Handler
two = record {
  config = watcher_config chain node handlers;
  current_block = 0;
  quit = open_quit;
  traffic = record { queue = []; closed = false; received = []; dropped = [] };
  watchers = 0;
  workers = 0;
  addresses = ascii "0xaa" ∷ ascii "0xbb" ∷ [];
  topics = ascii "i" ∷ ascii "d" ∷ [];
  address_to_handlers =
      (ascii "0xaa", (ascii "i", of_htlc Htlc.initiated) ∷ [])
      ∷ (ascii "0xbb", (ascii "d", of_orderbook Orderbook.filled) ∷ [])
      ∷ [];
}

new_watcher-two : new_watcher (watcher_config chain node handlers) ≡ ok two
unfolding watcher_config new_watcher fresh_watcher add_contracts add_topics lookup insert
new_watcher-two = refl

two-IsBuiltFrom : IsBuiltFrom (watcher_config chain node handlers) two
two-IsBuiltFrom =
    ((new_watcher_correct (watcher_config chain node handlers)).1 two new_watcher-two).1

-- Every log initiates the swap with the ID 1, 2.
abbrev filterer : Filterer
filterer = record {
  parse_initiated = λ log. ok (record { order_id = 1 ∷ 2 ∷ []; amount = some (pos 5); raw = log });
  parse_redeemed = λ log. err (external (ascii "no event"));
  parse_refunded = λ log. err (external (ascii "no event"));
}

abbrev globals : Globals
globals = record {
  htlc = record { garden_htlc_abi = none; garden_htlc_event_filter = some filterer };
  orderbook = record { order_book_abi = none };
}

abbrev hash_text : Hash → Bytes
hash_text h = h

abbrev unpack : Bytes → Outcome EvmOrder
unpack bytes = err (external (ascii "abi: improperly formatted output"))

abbrev store : Store (Unit {0})
store = record { db = tt }

abbrev swap : Swap
swap = record {
  created_at = 0;
  updated_at = 0;
  deleted_at = none;
  swap_id = ascii "0102";
  chain = [];
  asset = [];
  initiator = [];
  redeemer = [];
  time_lock = none;
  filled_amount = none;
  amount = none;
  secret_hash = [];
  secret = [];
  initiate_tx_hash = [];
  redeem_tx_hash = [];
  refund_tx_hash = [];
  initiate_block_number = none;
  redeem_block_number = none;
  refund_block_number = none;
}

abbrev database : Memory
database = record { swaps = swap ∷ []; orders = []; clock = 9; broken = false }

abbrev calls : Handler → Log → Memory → Outcome (Unit {0}) × Memory
calls = call_handler steady_memory hash_text unpack globals (handler_context store)

abbrev initiation_job : EventJob Handler
initiation_job = record { event = initiation; handler = of_htlc Htlc.initiated }

abbrev fill_job : EventJob Handler
fill_job = record { event = fill; handler = of_orderbook Orderbook.filled }

abbrev with_queue : List (EventJob Handler) → List (EventJob Handler) → System Handler
with_queue queue received = record (started two) {
  watcher = record two {
    workers = 10;
    watchers = 1;
    current_block = 9;
    traffic = record { queue = queue; closed = false; received = received; dropped = [] };
  };
}

abbrev polled : Service Handler Memory
polled = record {
  system = with_queue (initiation_job ∷ fill_job ∷ []) [];
  taken = [];
  handled = [];
  crash = none;
  db = database;
}

polled-reached : ServiceReachable calls two database polled
unfolding watcher_config started start loop_step after_poll poll_events poll_with poll_client
    block_range process_all_contract_events filter_query dispatch find_job lookup try_send receive
polled-reached =
    after at_start (refl, selecting-IsAlive (started two) refl)
      (moves _ (polls 0 [] refl refl) refl)

-- The order book's handler was the first to run.
abbrev settled : Service Handler Memory
settled = record {
  system = with_queue [] (initiation_job ∷ fill_job ∷ []);
  taken = [];
  handled = fill_job ∷ initiation_job ∷ [];
  crash = none;
  db =
      (calls (of_htlc Htlc.initiated) initiation
        (calls (of_orderbook Orderbook.filled) fill database).1).1;
}

calls-working :
    (handler : Handler) (log : Log) (db : Memory)
    → (calls handler log db).0 ≡ ok tt
    → worker_state calls (record { event = log; handler = handler }) db ≡ working
calls-working handler log db e = after_job-ok calls _ (calls handler log db) e

settled-reached : ServiceReachable calls two database settled
unfolding receive started start watcher_config after_job Orderbook.call
    Orderbook.handle_filled_event Htlc.call Htlc.handle_initiated_event store_from_context
    context_with_store Htlc.apply_initiated update_swap_initiate memory encode_to_string
settled-reached =
    after
      (after
        (after polled-reached (refl, selecting-IsAlive polled.system refl)
          (moves _ (worker_receives 2 (omega arith)) refl))
        (refl, selecting-IsAlive polled.system refl)
        (handles (initiation_job ∷ []) [] fill_job refl))
      (refl, selecting-IsAlive polled.system refl) (handles [] [] initiation_job refl)

abbrev initiates_it : SwapEvent
initiates_it = SwapEvent.initiates (ascii "0102") (ascii "tx") (some (pos 5)) (some (pos 3))

events-initiates_it :
    events_of hash_text filterer (initiation_job ∷ fill_job ∷ []) ≡ initiates_it ∷ []
unfolding encode_to_string filter_map
events-initiates_it = refl

SwapEvent_set : IsSet SwapEvent
SwapEvent_set = hlevel ℕ_discrete

single : (e f : SwapEvent) → Mem f (e ∷ []) → f ≡ e
single e f m =
    (forall_mem-cons (λ x. SwapEvent_set x e)).1 (refl, λ x n. absurd (not-mem-nil n)) f m

one-Agree : (e : SwapEvent) → Agree (e ∷ [])
one-Agree e = record { agree = λ x y m n s. single e x m ∙ sym (single e y n) }

settled-apply_events_example :
    map erase settled.db.swaps ≡ apply_events (initiates_it ∷ []) (map erase database.swaps)
unfolding started find_job lookup encode_to_string filter_map start watcher_config
settled-apply_events_example =
    settled-apply_events steady_memory steady_memory_laws steady_memory-IsReliable hash_text unpack
      globals store filterer refl node logs chain handlers two database settled node-IsNode
      two-IsBuiltFrom (omega arith) settled-reached refl
      (record { nothing_queued = refl; nothing_dropped = refl; nothing_taken = refl })
      (one-Agree initiates_it)

run_jobs-apply_events_example :
    map erase settled.db.swaps
    ≡ apply_events (events_of hash_text filterer settled.handled) (map erase database.swaps)
unfolding run_jobs
run_jobs-apply_events_example =
    run_jobs-apply_events steady_memory steady_memory_laws steady_memory-IsReliable hash_text unpack
      globals (handler_context store) store filterer
      (unfold store_from_context context_with_store in refl) refl settled.handled database
