-- ===== src/Builder/Tests/Delivered/Completed.antt =====
-- The watcher of two contracts after its first poll, whose workers have done nothing yet.
use garden_evm_watcher.Common.{
  ℕ, ℕ_discrete, zero, suc, ascii, ◌≤◌, ◌≡◌, refl, subst, ap, inl, inr, Bool-cases, if◌then◌else◌,
  List, [], ◌∷◌, length, map, ok, err, panic, arith, lookup, Dict, All, found_view, found, nothing,
  failed, crashed,
}
use garden_evm_watcher.Ethereum.{Log, Hash, Address, FilterQuery, IsFiltering, MatchesQuery}
use garden_evm_watcher.Watcher.Dispatch.{find_job}
use garden_evm_watcher.Watcher.Dispatch.Accounting.{job_list}
use garden_evm_watcher.Watcher.Loop.{start}
use garden_evm_watcher.Watcher.Loop.Catchup.{IsSteady}
use garden_evm_watcher.Watcher.System.{started}
use garden_evm_watcher.Watcher.Worker.{WorkerState, after_job, log_error, working}
use garden_evm_watcher.Watcher.Delivery.{Service, ServiceFrom, IsRunning, worker_state}
use garden_evm_watcher.Watcher.Delivery.Settles.{Calm}
use mathlib.Core.HLevel.{Π_prop}
use garden_evm_watcher.Watcher.Delivery.Chain.{select, selects}
use garden_evm_watcher.Watcher.Delivery.Filtering.{select-MatchesQuery}
use garden_evm_watcher.Watcher.Delivery.Lossless.{HasRoom}
use garden_evm_watcher.Store.Gorm.{count_targets}
use garden_evm_watcher.Store.Methods.{
  check_rows, update_swap_initiate, store_from_context, context_with_store,
}
use garden_evm_watcher.Store.Memory.{
  Memory, memory, steady_memory, steady_memory_laws, steady_memory-IsReliable,
}
use garden_evm_watcher.Handlers.Htlc.Order.{erase, apply_events}
use garden_evm_watcher.Handlers.Hex.{encode_to_string}
use mathlib.Core.List.{filter_map, forall_mem-cons, not-mem-nil}
use garden_evm_watcher.Handlers.Orderbook
use garden_evm_watcher.Handlers.Htlc
use garden_evm_watcher.Builder.{Handler, watcher_config}
use garden_evm_watcher.Builder.Completed.{swaps_complete}
use garden_evm_watcher.Builder.Tests.Delivered.{
  logs, node, node-IsNode, chain, handlers, two, two-IsBuiltFrom, filterer, globals, hash_text,
  unpack, store, database, calls, polled, polled-reached, initiates_it, one-Agree, initiation_job,
  fill_job, fill, calls-working,
}

length-select : (q : FilterQuery) (chain : List Log) → length (select q chain) ≤ length chain
length-select q [] = omega arith
length-select q (log ∷ more) = elim (Bool-cases (selects q log)) [
  | inl yes_it_is ↦ rw (yes_it_is, if◌then◌else◌) (omega (arith, length-select q more))
  | inr it_is_not ↦ rw (it_is_not, if◌then◌else◌) (omega (arith, length-select q more))
]

length-job_list :
    {H : Type 0} (table : Dict Address (Dict Hash H)) (ls : List Log)
    → length (job_list table ls) ≤ length ls
length-job_list table [] = omega arith
length-job_list table (log ∷ ls) = elim (found_view (find_job table log)) [
  | found job eq ↦ rw (eq, job_list) (omega (arith, length-job_list table ls))
  | nothing eq ↦ rw (eq, job_list) (omega (arith, length-job_list table ls))
  | failed e eq ↦ rw (eq, job_list) (omega (arith, length-job_list table ls))
  | crashed p eq ↦ rw (eq, job_list) (omega (arith, length-job_list table ls))
]

node-IsFiltering : IsFiltering node
node-IsFiltering = record {
  matches = λ t q ls e.
      subst (All (MatchesQuery q)) (ap (λ r. elim r [ ok l ↦ l | err x ↦ [] | panic p ↦ [] ]) e)
        (select-MatchesQuery q logs);
}

node-IsSteady : IsSteady node 5 9
node-IsSteady = record { answers = λ t u. refl; serves = λ t q u. (_, refl) }

node-HasRoom : HasRoom node two
unfolding watcher_config
node-HasRoom = record {
  room = λ t f b ls e.
      let same = ap (λ r. length (elim r [ ok l ↦ l | err x ↦ [] | panic p ↦ [] ])) e in
      omega (arith, same, length-select _ logs, length-job_list two.address_to_handlers ls);
}

WorkerState_set : IsSet WorkerState
WorkerState_set = hlevel ℕ_discrete

-- Also a swap that is missing is only an error.
checked-working :
    (n : ℕ) (db : Memory) → (after_job initiation_job (check_rows (ok n, db))).0 ≡ working
unfolding after_job log_error
checked-working zero db = refl
checked-working (suc n) db = refl

initiation-working : (db : Memory) → worker_state calls initiation_job db ≡ working
unfolding after_job Htlc.call Htlc.handle_initiated_event store_from_context context_with_store
    Htlc.apply_initiated update_swap_initiate memory encode_to_string
initiation-working db = checked-working (count_targets (ascii "0102") db.swaps) _

fill_ok : (db : Memory) → (calls fill_job.handler fill db).0 ≡ ok tt
unfolding Orderbook.call Orderbook.handle_filled_event
fill_ok db = refl

calls-Calm : Calm calls (initiation_job ∷ fill_job ∷ [])
calls-Calm = (forall_mem-cons (λ job. Π_prop (λ db. WorkerState_set _ _))).1 (
  initiation-working,
  (forall_mem-cons (λ job. Π_prop (λ db. WorkerState_set _ _))).1
      (λ db. calls-working fill_job.handler fill db (fill_ok db), λ job m. absurd (not-mem-nil m)),
)

polled-IsRunning : IsRunning calls polled
unfolding started start watcher_config
polled-IsRunning = record { now = refl; not_done = refl; busy = omega arith; whole = refl }

swaps_complete_example :
    (u : Service Handler Memory) × ServiceFrom calls polled u
    × IsRunning calls u
    × (u.system.watcher.current_block ≡ 9)
    × (map erase u.db.swaps ≡ apply_events (initiates_it ∷ []) (map erase database.swaps))
unfolding find_job lookup encode_to_string filter_map
swaps_complete_example =
    swaps_complete steady_memory steady_memory_laws steady_memory-IsReliable hash_text unpack
      globals store filterer refl node logs 5 9 chain handlers two database polled node-IsNode
      node-IsFiltering node-IsSteady two-IsBuiltFrom (λ e. cc) node-HasRoom (omega arith)
      (one-Agree initiates_it) calls-Calm polled-reached polled-IsRunning (omega arith) refl
