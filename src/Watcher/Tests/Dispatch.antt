-- ===== src/Watcher/Tests/Dispatch.antt =====
-- Passes over the logs on concrete logs.
use garden_evm_watcher.Common.{
  ℕ, ◌≡◌, ◌≢◌, refl, ascii, List, [], ◌∷◌, ◌++◌, Dict, err, external, wrapped, lookup, ok, panic,
  index_out_of_range, arith, bytes_comparable, false,
}
use garden_evm_watcher.Ethereum.{Address, Hash, Log, EthClient}
use garden_evm_watcher.Watcher.Types.{Traffic}
use garden_evm_watcher.Watcher.Dispatch.{dispatch, find_job, try_send, receive}
use garden_evm_watcher.Watcher.Dispatch.Accounting.{job_list, Accounts, dispatch-Accounts}
use garden_evm_watcher.Watcher.Dispatch.Faults.{dispatch-ne-panic}
use garden_evm_watcher.Watcher.Dispatch.Room.{dispatch-job_list}
use garden_evm_watcher.Watcher.Poll.{
  block_range, filter_query, process_all_contract_events, poll_client,
}
use garden_evm_watcher.Watcher.Poll.Errors.{poll_client-unchanged}
use garden_evm_watcher.Watcher.Tests.{here, topic, log_at, no_traffic, job_at, built}

abbrev table : Dict Address (Dict Hash ℕ)
table = (here, (topic, 7) ∷ []) ∷ []

-- A log of another contract, and four of the watched one.
abbrev five_logs : List Log
five_logs =
    record {
      address = ascii "elsewhere";
      topics = topic ∷ [];
      payload = [];
      block_number = 1;
      tx_hash = [];
    }
    ∷ log_at 1
    ∷ log_at 2
    ∷ log_at 3
    ∷ log_at 4
    ∷ []

-- Four jobs for a channel of three places: the last one is dropped.
abbrev full_traffic : Traffic ℕ
full_traffic = record {
  queue = job_at 1 ∷ job_at 2 ∷ job_at 3 ∷ [];
  closed = false;
  received = [];
  dropped = job_at 4 ∷ [];
}

dispatch_overflow : dispatch 3 table five_logs [] no_traffic ≡ (ok tt, full_traffic)
unfolding dispatch find_job try_send receive lookup
dispatch_overflow = refl

dispatch-Accounts_example : Accounts (job_list table five_logs) no_traffic full_traffic
dispatch-Accounts_example =
    dispatch-Accounts 3 table five_logs [] no_traffic full_traffic dispatch_overflow

abbrev bare_log : Log
bare_log = record { address = here; topics = []; payload = []; block_number = 1; tx_hash = [] }

dispatch-ne-panic_example :
    (dispatch 3 table (log_at 1 ∷ []) [] no_traffic).0 ≢ panic index_out_of_range
dispatch-ne-panic_example =
    dispatch-ne-panic 3 table (log_at 1 ∷ []) [] no_traffic index_out_of_range ((λ e. cc), tt) refl

dispatch-job_list_example :
    let p = dispatch 4 table five_logs [] no_traffic in
    (p.0 ≡ ok tt) × (p.1.dropped ≡ []) × (p.1.received ++ p.1.queue ≡ job_list table five_logs)
unfolding find_job lookup
dispatch-job_list_example =
    dispatch-job_list 4 table five_logs [] no_traffic
      ((λ e. cc), ((λ e. cc), ((λ e. cc), ((λ e. cc), ((λ e. cc), tt))))) tt refl (omega arith)

abbrev failing : EthClient
failing = record {
  block_number = λ t. ok 9;
  filter_logs = λ t q. err (external (ascii "429 Too Many Requests"));
}

poll_client-unchanged_example : (poll_client failing 0 [] built).1 ≡ built
unfolding poll_client block_range process_all_contract_events filter_query
poll_client-unchanged_example =
    poll_client-unchanged failing 0 [] built
      (wrapped (ascii "failed to filter logs") (external (ascii "429 Too Many Requests"))) (λ e. cc)
      refl
