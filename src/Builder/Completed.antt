-- ===== src/Builder/Completed.antt =====
-- From the logs of a chain to the swaps table: what a running watcher can always come to.
use garden_evm_watcher.Common.{
  ℕ, ◌^◌, ◌≤◌, ◌<◌, ◌≡◌, ◌≢◌, refl, subst, ◌∙◌, Bytes, List, [], map, some, Outcome,
}
use garden_evm_watcher.Ethereum.{Hash, Log, EthClient, IsFiltering}
use garden_evm_watcher.Watcher.Types.{ContractConfig, Watcher}
use garden_evm_watcher.Watcher.Dispatch.Accounting.{job_list}
use garden_evm_watcher.Watcher.Build.Contracts.{IsBuiltFrom}
use garden_evm_watcher.Watcher.Loop.Catchup.{IsSteady}
use garden_evm_watcher.Watcher.Delivery.{
  Service, ServiceFrom, ServiceReachable, ServiceFrom-trans, IsRunning, opened,
}
use garden_evm_watcher.Watcher.Delivery.Chain.{IsNode, between}
use garden_evm_watcher.Watcher.Delivery.Settles.{Calm}
use garden_evm_watcher.Watcher.Delivery.Lossless.{HasRoom, service_completes}
use garden_evm_watcher.Store.Gorm.{Gorm, IsLawful}
use garden_evm_watcher.Store.Methods.{Store}
use garden_evm_watcher.Store.Update.{IsReliable}
use garden_evm_watcher.Handlers.Htlc.{Filterer}
use garden_evm_watcher.Handlers.Htlc.Order.{erase, apply_events, Agree}
use garden_evm_watcher.Handlers.Orderbook.{EvmOrder}
use garden_evm_watcher.Config.{ChainConfig}
use garden_evm_watcher.Builder.{Handler, Globals, watcher_config}
use garden_evm_watcher.Builder.Effects.{call_handler, events_of}
use garden_evm_watcher.Builder.Delivered.{handler_context, settled-apply_events}

module _ {Handle Db : Type 0} (g : Gorm Handle Db) (l : IsLawful g) (reliable : IsReliable g l)
    (hash_text : Hash → Bytes) (unpack : Bytes → Outcome EvmOrder) (globals : Globals)
    (store : Store Handle) (filterer : Filterer)
    (has_filterer : globals.htlc.garden_htlc_event_filter ≡ some filterer) where
  abbrev handler_call : Handler → Log → Db → Outcome (Unit {0}) × Db
  handler_call = call_handler g hash_text unpack globals (handler_context store)

  -- The swaps table can always be completed. For a watcher of setupWatchers with topics, on a node
  -- that answers from a chain's logs, filters as asked, has block numbers and a first block that
  -- fit an int64, gives no answer with more jobs than the channel holds, and from some moment on
  -- serves every query and has `latest` as its last block; with a filterer set, the store in the
  -- context, a database whose updates do not fail, handlers that on the chain's jobs neither panic
  -- nor return context.Canceled, and events of one kind for one swap that are equal: from every
  -- state that it reaches whose loop selects, whose context is not done, that has a worker left,
  -- has not crashed, has dropped nothing and is not past block `latest`, steps lead on to one of
  -- the same kind at block `latest` where the swaps are, time stamps apart, what the events of all
  -- logs after the first block up to `latest` make of the swaps at the start.
  pub swaps_complete :
      (client : EthClient) (logs : List Log) (since latest : ℕ) (chain : ChainConfig)
      (handlers : List (ContractConfig Handler)) (w : Watcher Handler) (db : Db)
      (v : Service Handler Db)
      → IsNode client logs
      → IsFiltering client
      → IsSteady client since latest
      → IsBuiltFrom (watcher_config chain client handlers) w
      → w.topics ≢ []
      → HasRoom client w
      → chain.start_block < 2 ^ 63
      → Agree (
          events_of hash_text filterer
            (job_list w.address_to_handlers (between chain.start_block latest logs)))
      → Calm handler_call (job_list w.address_to_handlers logs)
      → ServiceReachable handler_call w db v
      → IsRunning handler_call v
      → v.system.watcher.current_block ≤ latest
      → v.system.watcher.traffic.dropped ≡ []
      → (u : Service Handler Db) × ServiceFrom handler_call v u
        × IsRunning handler_call u
        × (u.system.watcher.current_block ≡ latest)
        × (map erase (l.swaps u.db)
            ≡ apply_events
                (events_of hash_text filterer
                  (job_list w.address_to_handlers (between chain.start_block latest logs)))
                (map erase (l.swaps db)))
  unfolding watcher_config
  swaps_complete client logs since latest chain handlers w db v node filtering steady built topics
        room first agree calm r i le lossless =
      let (u, (reached, dropped), rest, at) =
        service_completes handler_call w db client logs since latest
          (watcher_config chain client handlers) node filtering steady built refl first topics room
          calm v r i le in
      (
        u,
        reached,
        rest.running,
        at,
        subst
            (λ n.
              let events =
                events_of hash_text filterer
                  (job_list w.address_to_handlers (between chain.start_block n logs)) in
              Agree events
              → map erase (l.swaps u.db) ≡ apply_events events (map erase (l.swaps db)))
            at
            (settled-apply_events g l reliable hash_text unpack globals store filterer has_filterer
              client logs chain handlers w db u node built first
              (ServiceFrom-trans handler_call (opened handler_call w db) v u r reached)
              rest.running.now
              (record {
                nothing_queued = rest.nothing_queued;
                nothing_dropped = dropped ∙ lossless;
                nothing_taken = rest.nothing_taken;
              }))
            agree,
      )
