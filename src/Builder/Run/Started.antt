-- ===== src/Builder/Run/Started.antt =====
-- What RunWatcher has started.
use garden_evm_watcher.Common.{
  ℕ, ℤ, pos, ◌*◌, ◌^◌, ◌<◌, ◌≡◌, refl, sym, ap, subst, ◌∙◌, Bytes, List, [], ◌∷◌, map, Dict,
  Outcome, ok, err, panic, All, arith, nonpositive, pos_part, non_positive_ticker, if◌then◌else◌,
  Error, Panic, false, Option, none, some,
}
use garden_evm_watcher.Ethereum.{EthClient}
use garden_evm_watcher.Watcher.Types.{ContractConfig, Watcher}
use garden_evm_watcher.Watcher.Build.Contracts.{IsBuiltFrom}
use garden_evm_watcher.Watcher.Loop.{start}
use garden_evm_watcher.Config.{ChainConfig, Config}
use garden_evm_watcher.Store.Gorm.{Gorm}
use garden_evm_watcher.Store.Methods.{
  background, with_cancel, store_from_context, context_with_store, made, new_store,
}
use garden_evm_watcher.Builder.{
  Handler, Globals, Outside, setup_watchers, watcher_config, milliseconds,
}
use garden_evm_watcher.Builder.Setup.{Made, setup_watchers-Made}
use garden_evm_watcher.Builder.Run.{
  Running, Machine, must, no_globals, start_watchers, crash_of_starts, running_unless, with_store,
  connected, logging, run_watcher,
}

-- A polling interval of a millisecond or more, which in nanoseconds fits an int64.
pub data IsInterval : ℤ → Type 0 where
  some_time : (n : ℕ) → 0 < n → n * 1000000 < 2 ^ 63 → IsInterval (pos n)

milliseconds-positive : (z : ℤ) → IsInterval z → nonpositive (milliseconds z) ≡ false
milliseconds-positive z (some_time n h b) = ground (arith, h, b)

module _ {Contract : Type 0} (o : Outside Contract) where
  -- Every Start went well: the watcher is at its chain's first block, with ten workers.
  pub data Started
      : Dict Bytes ChainConfig → List (Outcome (Unit {0}) × Watcher Handler) → Type 0 where
    all_started : Started [] []
    and_started :
        {name : Bytes} {chain : ChainConfig} {chains : Dict Bytes ChainConfig}
        {r : Outcome (Unit {0}) × Watcher Handler}
        {rs : List (Outcome (Unit {0}) × Watcher Handler)}
        → r.0 ≡ ok tt
        → r.1.current_block ≡ chain.start_block
        → r.1.workers ≡ 10
        → r.1.watchers ≡ 1
        → Started chains rs
        → Started ((name, chain) ∷ chains) (r ∷ rs)

  start-Made :
      (chain : ChainConfig) (client : EthClient) (handlers : List (ContractConfig Handler))
      (w : Watcher Handler)
      → IsBuiltFrom (watcher_config chain client handlers) w
      → IsInterval chain.polling_interval
      → ((start w).0 ≡ ok tt)
        × ((start w).1.current_block ≡ chain.start_block)
        × ((start w).1.workers ≡ 10)
        × ((start w).1.watchers ≡ 1)
  unfolding start watcher_config
  start-Made chain client handlers w built i =
      let interval = ap (λ c. c.polling_interval) built.same_config in
      let count = ap (λ c. pos_part c.worker_count) built.same_config in
      (
        ap (λ b. if b then panic non_positive_ticker else ok tt)
            (ap nonpositive interval ∙ milliseconds-positive chain.polling_interval i),
        ap (λ c. c.start_block) built.same_config,
        omega (arith, count, built.idle.no_workers),
        omega (arith, built.idle.no_watchers),
      )

  Started-Made :
      (chains : Dict Bytes ChainConfig) (ws : List (Watcher Handler))
      → Made o chains ws
      → All (λ (p : Bytes × ChainConfig). IsInterval p.1.polling_interval) chains
      → Started chains (map start ws)
  Started-Made _ _ Made.none_left a = all_started
  Started-Made _ _ (Made.one_more {chain} client handlers dialled watched built rest) (i, a) =
      let (fine, block, workers, watchers) = start-Made chain client handlers _ built i in
      and_started fine block workers watchers (Started-Made _ _ rest a)

module _ {Handle Db Contract : Type 0} (g : Gorm Handle Db) (o : Outside Contract) where
  -- RunWatcher put the database's store into the handlers' context, and has started a watcher for
  -- each chain; or the setup failed, and it waits with no watcher at all.
  pub data Runs (cfg : Config) (h : Handle) (r : Running Handle) : Type 0 where
    all_chains :
        store_from_context r.context ≡ ok (record { db = h })
        → Started o cfg.chains r.watchers
        → Runs cfg h r
    no_chain :
        store_from_context r.context ≡ ok (record { db = h })
        → (e : Error) → (setup_watchers o cfg no_globals).0 ≡ err e
        → r.watchers ≡ []
        → Runs cfg h r

  outcome_or : Running Handle → Outcome (Running Handle) → Running Handle
  outcome_or other (ok r) = r
  outcome_or other (err e) = other
  outcome_or other (panic p) = other

  running_unless-ok :
      (c : Option Panic) (r r' : Running Handle) → running_unless c r ≡ ok r' → r ≡ r'
  unfolding outcome_or
  running_unless-ok none r r' e = ap (outcome_or r) e
  running_unless-ok (some p) r r' e = cc

  start_watchers-Runs :
      (cfg : Config) (h : Handle) (r : Running Handle)
      (out : Outcome (List (Watcher Handler)) × Globals)
      → setup_watchers o cfg no_globals ≡ out
      → All (λ (p : Bytes × ChainConfig). IsInterval p.1.polling_interval) cfg.chains
      → start_watchers (context_with_store (with_cancel background) (record { db = h })) out ≡ ok r
      → Runs cfg h r
  unfolding start_watchers context_with_store store_from_context outcome_or
  start_watchers-Runs cfg h r (ok ws, s) e a h' =
      let same = running_unless-ok (crash_of_starts (map start ws)) _ r h' in
      all_chains (ap (λ q. store_from_context q.context) (sym same)) (
        subst (λ q. Started o cfg.chains q.watchers) same
          (Started-Made o cfg.chains ws (setup_watchers-Made o cfg ws no_globals s e) a))
  start_watchers-Runs cfg h r (err x, s) e a h' =
      let same = ap (outcome_or r) h' in
      no_chain (ap (λ q. store_from_context q.context) (sym same)) x (ap (λ q. q.0) e)
        (ap (λ q. q.watchers) (sym same))
  start_watchers-Runs cfg h r (panic p, s) e a h' = cc

  stored-Runs :
      (cfg : Config) (h : Handle) (s : Db) (r : Running Handle) (out : Outcome (Unit {0}) × Db)
      → All (λ (p : Bytes × ChainConfig). IsInterval p.1.polling_interval) cfg.chains
      → (with_store g o cfg (made h out)).0 ≡ ok r
      → Runs cfg h r
  unfolding with_store
  stored-Runs cfg h s r (ok u, s') a e =
      start_watchers-Runs cfg h r (setup_watchers o cfg no_globals) refl a e
  stored-Runs cfg h s r (err x, s') a e = cc
  stored-Runs cfg h s r (panic p, s') a e = cc

  connected-Runs :
      (cfg : Config) (s : Db) (r : Running Handle) (out : Outcome Handle)
      → All (λ (p : Bytes × ChainConfig). IsInterval p.1.polling_interval) cfg.chains
      → (connected g o cfg (must out) s).0 ≡ ok r
      → (h : Handle) × (out ≡ ok h) × Runs cfg h r
  unfolding new_store
  connected-Runs cfg s r (ok h) a e = (h, refl, stored-Runs cfg h s r (g.auto_migrate h s) a e)
  connected-Runs cfg s r (err x) a e = cc
  connected-Runs cfg s r (panic p) a e = cc

  logging-Runs :
      (cfg : Config) (s : Db) (r : Running Handle) (logger : Outcome (Unit {0}))
      (out : Outcome Handle)
      → All (λ (p : Bytes × ChainConfig). IsInterval p.1.polling_interval) cfg.chains
      → (logging g o cfg (must logger) (must out) s).0 ≡ ok r
      → (h : Handle) × (out ≡ ok h) × Runs cfg h r
  logging-Runs cfg s r (ok l) out a e = connected-Runs cfg s r out a e
  logging-Runs cfg s r (err x) out a e = cc
  logging-Runs cfg s r (panic p) out a e = cc

  -- For chains whose polling intervals are a millisecond or more and fit an int64 of nanoseconds:
  -- when RunWatcher comes to wait for a signal, the database is open, the handlers' context holds
  -- its store, and each chain's watcher has been started without a panic, at its first block and
  -- with ten workers; or the setup returned an error and no watcher was started.
  pub run_watcher-Runs :
      (machine : Machine Handle) (cfg : Config) (s : Db) (r : Running Handle)
      → All (λ (p : Bytes × ChainConfig). IsInterval p.1.polling_interval) cfg.chains
      → (run_watcher g o machine cfg s).0 ≡ ok r
      → (h : Handle) × (machine.open_database cfg.psql_db ≡ ok h) × Runs cfg h r
  unfolding run_watcher
  run_watcher-Runs machine cfg s r a e =
      logging-Runs cfg s r machine.new_logger (machine.open_database cfg.psql_db) a e
