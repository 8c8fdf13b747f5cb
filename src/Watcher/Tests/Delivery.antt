-- ===== src/Watcher/Tests/Delivery.antt =====
-- A service over a chain of three logs.
use garden_evm_watcher.Common.{
  ℕ, none, suc, ◌≡◌, refl, subst, ap, List, [], ◌∷◌, ◌++◌, some, ok, err, panic, All, arith, lookup,
  insert, bytes_comparable, Exec,
}
use mathlib.Core.List.{Perm}
use garden_evm_watcher.Ethereum.{Log, EthClient, IsFiltering, MatchesQuery}
use garden_evm_watcher.Watcher.Types.{WatcherConfig, Watcher, EventJob}
use garden_evm_watcher.Watcher.Build.{new_watcher, add_contracts, fresh_watcher, add_topics}
use garden_evm_watcher.Watcher.Build.Contracts.{IsBuiltFrom}
use garden_evm_watcher.Watcher.Build.Validation.{new_watcher_correct}
use garden_evm_watcher.Watcher.Dispatch.{dispatch, find_job, try_send, receive}
use garden_evm_watcher.Watcher.Dispatch.Accounting.{job_list}
use garden_evm_watcher.Watcher.Poll.{
  block_range, process_all_contract_events, poll_client, poll_with, filter_query, poll_events,
}
use garden_evm_watcher.Watcher.Loop.Catchup.{IsSteady}
use garden_evm_watcher.Watcher.Loop.{start, loop_step, after_poll}
use garden_evm_watcher.Watcher.System.{started, selecting-IsAlive, polls, worker_receives}
use garden_evm_watcher.Watcher.Delivery.{
  Service, ServiceFrom, ServiceReachable, IsRunning, at_start, after, moves, handles,
}
use garden_evm_watcher.Watcher.Delivery.Settles.{Calm}
use garden_evm_watcher.Watcher.Worker.{after_job}
use garden_evm_watcher.Watcher.Delivery.Chain.{IsNode, select, between}
use garden_evm_watcher.Watcher.Delivery.Filtering.{select-MatchesQuery}
use garden_evm_watcher.Watcher.Delivery.Catchup.{service_catches_up}
use garden_evm_watcher.Watcher.Delivery.Handled.{service_delivers}
use garden_evm_watcher.Watcher.Tests.{log_at, job_at, config, built}

-- A log that no one watches stands among the others; the last block is out of the first span.
abbrev chain : List Log
chain = log_at 1 ∷ record (log_at 2) { topics = [] } ∷ log_at 5 ∷ log_at 20 ∷ []

abbrev node : EthClient
node = record { block_number = λ t. ok 30; filter_logs = λ t q. ok (select q chain) }

node-IsNode : IsNode node chain
node-IsNode = record {
  fits = λ t n e. ground (arith, e);
  answers = λ t n f l q logs known from_block to_block reached e. cc;
}

abbrev node_config : WatcherConfig ℕ
node_config = record config { eth_client = some node }

abbrev on_node : Watcher ℕ
on_node = record built { config = node_config }

new_watcher-on_node : new_watcher node_config ≡ ok on_node
unfolding new_watcher fresh_watcher add_contracts add_topics lookup insert
new_watcher-on_node = refl

on_node-IsBuiltFrom : IsBuiltFrom node_config on_node
on_node-IsBuiltFrom = ((new_watcher_correct node_config).1 on_node new_watcher-on_node).1

-- A handler that counts its calls.
abbrev counts : ℕ → Log → Exec ℕ (Unit {0})
counts h log n = (ok tt, suc n)

abbrev polled_once : Service ℕ ℕ
polled_once = record {
  system = record (started on_node) {
    watcher = record on_node {
      workers = 2;
      watchers = 1;
      current_block = 11;
      traffic = record {
        queue = job_at 1 ∷ job_at 5 ∷ [];
        closed = built.traffic.closed;
        received = [];
        dropped = [];
      };
    };
  };
  taken = [];
  handled = [];
  crash = none;
  db = 0;
}

polled_once-reached : ServiceReachable counts on_node 0 polled_once
unfolding started start loop_step after_poll poll_events poll_with poll_client block_range
    process_all_contract_events filter_query dispatch find_job lookup try_send receive
polled_once-reached =
    after at_start (refl, selecting-IsAlive (started on_node) refl)
      (moves _ (polls 0 [] refl refl) refl)

-- The workers have taken both jobs, and the second one's handler was the first to run.
abbrev one_handled : Service ℕ ℕ
one_handled = record {
  system = record polled_once.system {
    watcher = record polled_once.system.watcher {
      traffic = record {
        queue = [];
        closed = built.traffic.closed;
        received = job_at 1 ∷ job_at 5 ∷ [];
        dropped = [];
      };
    };
  };
  taken = job_at 1 ∷ [];
  handled = job_at 5 ∷ [];
  crash = none;
  db = 1;
}

one_handled-reached : ServiceReachable counts on_node 0 one_handled
unfolding receive started start after_job
one_handled-reached =
    after
      (after polled_once-reached (refl, selecting-IsAlive polled_once.system refl)
        (moves _ (worker_receives 2 (omega arith)) refl))
      (refl, selecting-IsAlive polled_once.system refl) (handles (job_at 1 ∷ []) [] (job_at 5) refl)

service_delivers_example :
    Perm
      (((one_handled.handled ++ one_handled.taken) ++ []) ++ [])
      (job_list on_node.address_to_handlers (between 0 11 chain))
unfolding started start
service_delivers_example =
    service_delivers counts node chain node_config on_node 0 one_handled node-IsNode
      on_node-IsBuiltFrom refl (omega arith) one_handled-reached refl

node-IsFiltering : IsFiltering node
node-IsFiltering = record {
  matches = λ t q ls e.
      subst (All (MatchesQuery q)) (ap (λ r. elim r [ ok l ↦ l | err x ↦ [] | panic p ↦ [] ]) e)
        (select-MatchesQuery q chain);
}

node-IsSteady : IsSteady node 3 30
node-IsSteady = record { answers = λ t u. refl; serves = λ t q u. (_, refl) }

-- The last log is in the blocks that are still to come.
one_handled-IsRunning : IsRunning counts one_handled
unfolding started start
one_handled-IsRunning = record { now = refl; not_done = refl; busy = omega arith; whole = refl }

counts-Calm : (jobs : List (EventJob ℕ)) → Calm counts jobs
unfolding after_job
counts-Calm jobs job m db = refl

service_catches_up_example :
    (u : Service ℕ ℕ) × ServiceFrom counts one_handled u
    × IsRunning counts u
    × (u.system.watcher.current_block ≡ 30)
    × (u.taken ≡ [])
    × (u.system.watcher.traffic.queue ≡ [])
    × Perm
        (u.handled ++ u.system.watcher.traffic.dropped)
        (job_list on_node.address_to_handlers (between 0 30 chain))
service_catches_up_example =
    service_catches_up counts node chain 3 30 node_config on_node 0 one_handled node-IsNode
      node-IsFiltering node-IsSteady on_node-IsBuiltFrom refl (omega arith) (λ e. cc)
      (counts-Calm _) one_handled-reached one_handled-IsRunning (omega arith)
