-- ===== src/Watcher/Build/Validation.antt =====
-- Which configurations NewWatcher accepts, and what it then returns.
use garden_evm_watcher.Common.{◌<◌, ◌≡◌, ◌≢◌, sym, subst, [], none, ok, arith, pos_part}
use garden_evm_watcher.Watcher.Types.{WatcherConfig, Watcher}
use garden_evm_watcher.Watcher.Build.{fresh_watcher, add_contracts, new_watcher}
use garden_evm_watcher.Watcher.Build.Contracts.{IsBuiltFrom, fresh-IsBuiltFrom}

module _ {H : Type 0} where
  pub record IsAcceptable (config : WatcherConfig H) : Type 0 where
    pub client : config.eth_client ≢ none
    pub logger : config.logger ≢ none
    pub workers : 0 < pos_part config.worker_count
    pub room : 0 < pos_part config.queue_size

  new_watcher-ok :
      (config : WatcherConfig H)
      → IsAcceptable config
      → new_watcher config ≡ ok (add_contracts config.contracts (fresh_watcher config, [])).0
  unfolding new_watcher
  new_watcher-ok config a = ground arith

  new_watcher-inv :
      (config : WatcherConfig H) (w : Watcher H)
      → new_watcher config ≡ ok w
      → IsAcceptable config × (w ≡ (add_contracts config.contracts (fresh_watcher config, [])).0)
  unfolding new_watcher
  new_watcher-inv config w e = ground arith

  -- NewWatcher succeeds exactly on the configurations with a client, a logger and positive counts,
  -- and its watcher then has the configured addresses, topics and handlers, an open and empty
  -- channel, and no goroutine.
  pub new_watcher_correct :
      (config : WatcherConfig H)
      → (IsAcceptable config → (w : Watcher H) × (new_watcher config ≡ ok w))
        × ((w : Watcher H) → new_watcher config ≡ ok w → IsAcceptable config × IsBuiltFrom config w)
  new_watcher_correct config = (
    λ a. (_, new_watcher-ok config a),
    λ w e.
        let (a, same) = new_watcher-inv config w e in
        (a, subst (IsBuiltFrom config) (sym same) (fresh-IsBuiltFrom config)),
  )
