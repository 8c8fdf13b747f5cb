-- ===== src/Watcher/Tests.antt =====
-- pkg/watcher on concrete inputs: a watcher of one contract, and nodes that answer it.
mod Dispatch
mod Build
mod Workers
mod Shutdown
mod Delivery
use garden_evm_watcher.Common.{
  true, ℕ, pos, ◌+◌, ◌≤◌, ◌≡◌, ◌≢◌, refl, Bytes, ascii, List, [], ◌∷◌, none, some, Dict, lookup,
  insert, ok, err, panic, index_out_of_range, inl, inr, arith, bytes_comparable, false, subst, ap,
  All, Exec, external, length, event_not_in_abi,
}
use garden_evm_watcher.Ethereum.{
  Address, Hash, Log, FilterQuery, EthClient, MatchesQuery, IsFiltering,
}
use garden_evm_watcher.Watcher.Types.{WatcherConfig, EventJob, Traffic, Watcher, open_quit}
use garden_evm_watcher.Watcher.Build.{
  new_watcher, new_contract_config, add_contracts, fresh_watcher, add_topics, add_handlers,
}
use garden_evm_watcher.Watcher.Build.Contracts.{IsBuiltFrom, IsIdle}
use garden_evm_watcher.Watcher.Build.Validation.{IsAcceptable, new_watcher_correct}
use garden_evm_watcher.Watcher.Build.Query.{find_job-MatchesQuery}
use garden_evm_watcher.Watcher.Build.Events.{Installs, new_contract_config-Installs}
use garden_evm_watcher.Watcher.Dispatch.{quiet, dispatch, find_job, try_send, receive}
use garden_evm_watcher.Watcher.Dispatch.Accounting.{job_list, Accounts, dispatch-Accounts}
use garden_evm_watcher.Watcher.Dispatch.Capacity.{dispatch_no_loss}
use garden_evm_watcher.Watcher.Dispatch.Faults.{dispatch-ne-panic}
use garden_evm_watcher.Watcher.Poll.{
  block_range, process_all_contract_events, poll_client, poll_with, block_range, filter_query,
  poll_client, poll_events,
}
use garden_evm_watcher.Watcher.Poll.Step.{PollStep, poll_client-PollStep}
use garden_evm_watcher.Watcher.Loop.{
  ctx_done, awaiting_workers, start, loop_step, after_poll, ticked, quit_closed, selecting, loop,
}
use garden_evm_watcher.Watcher.Loop.Catchup.{IsSteady, loop_catches_up}
use garden_evm_watcher.Watcher.Worker.{
  received, worker, run_jobs, IsCalm, working, worker-run_jobs, after_job, log_error,
}

abbrev here : Address
here = ascii "token bridge"

abbrev topic : Hash
topic = ascii "Initiated()"

abbrev log_at : ℕ → Log
log_at n = record {
  address = here;
  topics = topic ∷ [];
  payload = [];
  block_number = n;
  tx_hash = ascii "tx";
}

-- Two logs for a query of one address and one list of topics, none for others.
abbrev served : List Address → List (List Hash) → List Log
served (a ∷ more) ((t ∷ ts) ∷ []) =
    record { address = a; topics = t ∷ []; payload = []; block_number = 1; tx_hash = [] }
    ∷ record {
      address = a;
      topics = t ∷ ascii "extra" ∷ [];
      payload = [];
      block_number = 2;
      tx_hash = [];
    }
    ∷ []
served _ _ = []

abbrev client : EthClient
client = record {
  block_number = λ t. ok 100;
  filter_logs = λ t q. ok (served q.addresses q.topics);
}

abbrev config : WatcherConfig ℕ
config = record {
  eth_client = some client;
  contracts = record { address = here; event_handlers = (topic, 7) ∷ [] } ∷ [];
  max_block_span = 10;
  polling_interval = pos 1000;
  logger = some tt;
  start_block = 0;
  worker_count = pos 2;
  queue_size = pos 3;
}

abbrev no_traffic : Traffic ℕ
no_traffic = record { queue = []; closed = false; received = []; dropped = [] }

abbrev built : Watcher ℕ
built = record {
  config = config;
  current_block = 0;
  quit = open_quit;
  traffic = no_traffic;
  watchers = 0;
  workers = 0;
  addresses = here ∷ [];
  topics = topic ∷ [];
  address_to_handlers = (here, (topic, 7) ∷ []) ∷ [];
}

new_watcher-built : new_watcher config ≡ ok built
unfolding new_watcher fresh_watcher add_contracts add_topics lookup insert
new_watcher-built = refl

first_block_range : block_range 0 100 10 ≡ some (1, 11)
unfolding block_range
first_block_range = refl

last_block_range : block_range 95 100 10 ≡ some (96, 100)
unfolding block_range
last_block_range = refl

old_block_range : block_range 100 100 10 ≡ none
unfolding block_range
old_block_range = refl

client-IsSteady : IsSteady client 0 100
client-IsSteady = record { answers = λ t u. refl; serves = λ t q u. (_, refl) }

served-matches :
    (q : FilterQuery) (addresses : List Address) (topics : List (List Hash))
    → q.addresses ≡ addresses
    → q.topics ≡ topics
    → All (MatchesQuery q) (served addresses topics)
served-matches q [] ts e f = tt
served-matches q (a ∷ more) [] e f = tt
served-matches q (a ∷ more) ([] ∷ tss) e f = tt
served-matches q (a ∷ more) ((t ∷ ts) ∷ (u ∷ tss)) e f = tt
served-matches q (a ∷ more) ((t ∷ ts) ∷ []) e f = (
  record { from_address = rw e (inr (inl refl)); with_topics = rw f (inl refl, tt) },
  (record { from_address = rw e (inr (inl refl)); with_topics = rw f (inl refl, tt) }, tt),
)

client-IsFiltering : IsFiltering client
client-IsFiltering = record {
  matches = λ t q ls e.
      subst (All (MatchesQuery q)) (ap (λ r. elim r [ ok l ↦ l | err x ↦ [] | panic p ↦ [] ]) e)
        (served-matches q q.addresses q.topics refl refl);
}

poll_client-PollStep_example : PollStep client 0 built (poll_client client 0 [] built)
poll_client-PollStep_example = poll_client-PollStep client 0 [] built (λ n e. ground (arith, e))

loop_catches_up_example :
    ((loop (ticked 0 [] ∷ ticked 1 [] ∷ []) built).0 ≡ selecting)
    × ((loop (ticked 0 [] ∷ ticked 1 [] ∷ []) built).1.current_block ≡ 22)
loop_catches_up_example =
    loop_catches_up client 0 100 client-IsFiltering client-IsSteady (omega arith)
      (ticked 0 [] ∷ ticked 1 [] ∷ []) built refl (λ e. cc) refl (omega arith)
      (omega arith, (tt, (omega arith, (tt, tt))))

abbrev job_at : ℕ → EventJob ℕ
job_at n = record { event = log_at n; handler = 7 }
