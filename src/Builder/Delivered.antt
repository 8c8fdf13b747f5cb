-- ===== src/Builder/Delivered.antt =====
-- From the logs of a chain to the swaps table: a watcher of the builder with the handlers of both
-- packages.
use garden_evm_watcher.Common.{
  ◌^◌, ◌<◌, ◌≡◌, refl, sym, ap, subst, ◌∙◌, Bytes, List, [], ◌++◌, append-nil, map, some, Outcome,
  ok,
}
use mathlib.Core.List.{Perm}
use mathlib.Core.List.Perm
use garden_evm_watcher.Ethereum.{Hash, Log, EthClient}
use garden_evm_watcher.Watcher.Types.{ContractConfig, Watcher}
use garden_evm_watcher.Watcher.Dispatch.Accounting.{job_list}
use garden_evm_watcher.Watcher.Build.Contracts.{IsBuiltFrom}
use garden_evm_watcher.Watcher.Loop.{selecting}
use garden_evm_watcher.Watcher.Delivery.{Service, ServiceReachable}
use garden_evm_watcher.Watcher.Delivery.Chain.{IsNode, between}
use garden_evm_watcher.Watcher.Delivery.Handled.{handled-run_jobs, service_delivers}
use garden_evm_watcher.Store.Gorm.{Gorm, IsLawful}
use garden_evm_watcher.Store.Methods.{
  Store, Context, background, with_cancel, store_from_context, context_with_store,
}
use garden_evm_watcher.Store.Update.{IsReliable}
use garden_evm_watcher.Handlers.Htlc.{Filterer}
use garden_evm_watcher.Handlers.Htlc.Order.{erase, apply_events, Agree, apply_events-perm}
use garden_evm_watcher.Handlers.Orderbook.{EvmOrder}
use garden_evm_watcher.Config.{ChainConfig}
use garden_evm_watcher.Builder.{Handler, Globals, watcher_config}
use garden_evm_watcher.Builder.Effects.{call_handler, event_of, events_of, run_jobs-apply_events}

-- The context that RunWatcher gives to the handlers.
abbrev pub handler_context : {Handle : Type 0} → Store Handle → Context Handle
handler_context store = context_with_store (with_cancel background) store

handler_context-store :
    {Handle : Type 0} (store : Store Handle) → store_from_context (handler_context store) ≡ ok store
unfolding store_from_context context_with_store
handler_context-store store = refl

-- Every job of the scanned blocks was sent, received and handled.
pub record IsSettled {H Db : Type 0} (v : Service H Db) : Type 0 where
  pub nothing_queued : v.system.watcher.traffic.queue ≡ []
  pub nothing_dropped : v.system.watcher.traffic.dropped ≡ []
  pub nothing_taken : v.taken ≡ []

settled-jobs :
    {H Db : Type 0} (v : Service H Db)
    → IsSettled v
    → let q = v.system.watcher.traffic in
      (((v.handled ++ v.taken) ++ q.queue) ++ q.dropped) ≡ v.handled
settled-jobs v s =
    rw (s.nothing_taken, s.nothing_queued, s.nothing_dropped)
      (append-nil _ ∙ append-nil _ ∙ append-nil v.handled)

module _ {Handle Db : Type 0} (g : Gorm Handle Db) (l : IsLawful g) (reliable : IsReliable g l)
    (hash_text : Hash → Bytes) (unpack : Bytes → Outcome EvmOrder) (globals : Globals)
    (store : Store Handle) (filterer : Filterer)
    (has_filterer : globals.htlc.garden_htlc_event_filter ≡ some filterer) where
  abbrev handler_call : Handler → Log → Db → Outcome (Unit {0}) × Db
  handler_call = call_handler g hash_text unpack globals (handler_context store)

  -- From the chain to the swaps table. For a watcher of setupWatchers on a node that answers from a
  -- chain's logs, whose block numbers and first block fit an int64, with a filterer set, the store
  -- in the context and a database whose updates do not fail: whatever the order of the steps of the
  -- loop, the workers, the context and Stop, while the loop selects and all jobs so far were
  -- received and handled and none was dropped, the swaps are, time stamps apart, what the events of
  -- all logs after the first block up to the current one make of the swaps at the start, if events
  -- of one kind for one swap are equal.
  pub settled-apply_events :
      (client : EthClient) (logs : List Log) (chain : ChainConfig)
      (handlers : List (ContractConfig Handler)) (w : Watcher Handler) (db : Db)
      (v : Service Handler Db)
      → IsNode client logs
      → IsBuiltFrom (watcher_config chain client handlers) w
      → chain.start_block < 2 ^ 63
      → ServiceReachable handler_call w db v
      → v.system.loop ≡ selecting
      → IsSettled v
      → let jobs =
          job_list w.address_to_handlers
            (between chain.start_block v.system.watcher.current_block logs) in
        Agree (events_of hash_text filterer jobs)
        → map erase (l.swaps v.db)
          ≡ apply_events (events_of hash_text filterer jobs) (map erase (l.swaps db))
  unfolding watcher_config
  settled-apply_events client logs chain handlers w db v node built small r now s agree =
      let jobs =
        job_list w.address_to_handlers
          (between chain.start_block v.system.watcher.current_block logs) in
      let all_handled : Perm v.handled jobs =
        subst (λ l. Perm l jobs) (settled-jobs v s)
          (service_delivers handler_call client logs (watcher_config chain client handlers) w db v
            node built refl small r now) in
      ap (λ d. map erase (l.swaps d)) (handled-run_jobs handler_call w db v r)
      ∙ run_jobs-apply_events g l reliable hash_text unpack globals (handler_context store) store
          filterer (handler_context-store store) has_filterer v.handled db
      ∙ sym (
          apply_events-perm (events_of hash_text filterer jobs)
            (events_of hash_text filterer v.handled) (map erase (l.swaps db))
            (Perm.filter_map (event_of hash_text filterer) (Perm.symm all_handled)) agree)
