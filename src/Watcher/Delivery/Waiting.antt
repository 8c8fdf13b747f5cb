-- ===== src/Watcher/Delivery/Waiting.antt =====
-- The jobs that wait for a worker or its handler are jobs of the chain's logs.
use garden_evm_watcher.Common.{
  ℕ, ◌^◌, ◌<◌, ◌≡◌, inl, inr, List, [], ◌∷◌, ◌++◌, some, Exec, Dict, Bool-cases, if◌then◌else◌,
  found_view, found, nothing, failed, crashed,
}
use mathlib.Core.List.{
  mem-cons_self, mem-append_left, mem-append_right, Subset, nil-subset, cons-subset,
  subset-cons_of_subset,
}
use mathlib.Core.List.Perm
use garden_evm_watcher.Ethereum.{Address, Hash, Log, EthClient}
use garden_evm_watcher.Watcher.Types.{WatcherConfig, Watcher}
use garden_evm_watcher.Watcher.Dispatch.{find_job}
use garden_evm_watcher.Watcher.Dispatch.Accounting.{job_list}
use garden_evm_watcher.Watcher.Build.Contracts.{IsBuiltFrom}
use garden_evm_watcher.Watcher.Loop.{selecting}
use garden_evm_watcher.Watcher.Delivery.{Service, ServiceReachable}
use garden_evm_watcher.Watcher.Delivery.Chain.{IsNode, between, inside}
use garden_evm_watcher.Watcher.Delivery.Handled.{service_delivers}

module _ {H : Type 0} where
  jobs-subset :
      (table : Dict Address (Dict Hash H)) (a b : ℕ) (chain : List Log)
      → Subset (job_list table (between a b chain)) (job_list table chain)
  jobs-subset table a b [] = nil-subset _
  jobs-subset table a b (log ∷ logs) =
      let rest = jobs-subset table a b logs in
      elim (found_view (find_job table log)) [
        | found job eq ↦ elim (Bool-cases (inside a b log)) [
          | inl yes_it_is ↦
              rw (yes_it_is, if◌then◌else◌, eq, job_list)
                (cons-subset.1 (mem-cons_self, subset-cons_of_subset job rest))
          | inr it_is_not ↦
              rw (it_is_not, if◌then◌else◌, eq, job_list) (subset-cons_of_subset job rest)
        ]
        | nothing eq ↦ elim (Bool-cases (inside a b log)) [
          | inl yes_it_is ↦ rw (yes_it_is, if◌then◌else◌, eq, job_list) rest
          | inr it_is_not ↦ rw (it_is_not, if◌then◌else◌, eq, job_list) rest
        ]
        | failed e eq ↦ elim (Bool-cases (inside a b log)) [
          | inl yes_it_is ↦ rw (yes_it_is, if◌then◌else◌, eq, job_list) rest
          | inr it_is_not ↦ rw (it_is_not, if◌then◌else◌, eq, job_list) rest
        ]
        | crashed p eq ↦ elim (Bool-cases (inside a b log)) [
          | inl yes_it_is ↦ rw (yes_it_is, if◌then◌else◌, eq, job_list) rest
          | inr it_is_not ↦ rw (it_is_not, if◌then◌else◌, eq, job_list) rest
        ]
      ]

module _ {H Db : Type 0} (call : H → Log → Exec Db (Unit {0})) where
  -- For a built watcher on a node that answers from a chain's logs: while the loop selects, the
  -- jobs with the workers and in the channel are jobs of the chain's logs.
  pub waiting-subset :
      (client : EthClient) (chain : List Log) (config : WatcherConfig H) (w : Watcher H) (db : Db)
      (v : Service H Db)
      → IsNode client chain
      → IsBuiltFrom config w
      → config.eth_client ≡ some client
      → config.start_block < 2 ^ 63
      → ServiceReachable call w db v
      → v.system.loop ≡ selecting
      → Subset v.taken (job_list w.address_to_handlers chain)
        × Subset v.system.watcher.traffic.queue (job_list w.address_to_handlers chain)
  waiting-subset client chain config w db v node built uses small r now =
      let q = v.system.watcher.traffic in
      let all = service_delivers call client chain config w db v node built uses small r now in
      let of_chain =
        jobs-subset w.address_to_handlers config.start_block v.system.watcher.current_block chain in
      (
        (λ x m. of_chain x (
            (Perm.mem_iff all).0 (
              mem-append_left q.dropped (mem-append_left q.queue (mem-append_right v.handled m))))),
        (λ x m. of_chain x (
            (Perm.mem_iff all).0
              (mem-append_left q.dropped (mem-append_right (v.handled ++ v.taken) m)))),
      )
