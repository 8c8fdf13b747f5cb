-- ===== src/Builder/Run.antt =====
-- cmd/builder/builder.go, RunWatcher, and the commands cmd/watcher/watcher.go and
-- cmd/local/local.go. Making the logger, opening the database and the file are parameters.
pub mod Started
pub mod Invalid
use garden_evm_watcher.Common.{
  ℕ, Bytes, ascii, List, [], ◌∷◌, map, Option, none, some, Dict, Outcome, ok, err, panic, panicked,
  Error, Panic,
}
use garden_evm_watcher.Watcher.Types.{Watcher}
use garden_evm_watcher.Watcher.Loop.{start}
use garden_evm_watcher.Store.Gorm.{Gorm}
use garden_evm_watcher.Store.Methods.{
  Store, Context, background, with_cancel, context_with_store, new_store,
}
use garden_evm_watcher.Config.{Config}
use garden_evm_watcher.Config.Load.{load_configuration}
use garden_evm_watcher.Builder.{Handler, Globals, Outside, setup_watchers}

-- What RunWatcher has when it waits for a signal: the context of the handlers, and each watcher
-- after its Start, which runs in a goroutine of its own.
pub record Running (Handle : Type 0) : Type 0 where
  pub context : Context Handle
  pub watchers : List (Outcome (Unit {0}) × Watcher Handler)

-- What it gets from outside, besides the nodes: zap.NewProduction, and gorm.Open on Postgres.
pub record Machine (Handle : Type 0) : Type 0 where
  pub new_logger : Outcome (Unit {0})
  pub open_database : Bytes → Outcome Handle

-- if err != nil { panic(err) }
abbrev pub must : {A : Type 0} → Outcome A → Outcome A
must (ok a) = ok a
must (err e) = panic (panicked e)
must (panic p) = panic p

-- The package variables before main.
abbrev pub no_globals : Globals
no_globals = record {
  htlc = record { garden_htlc_abi = none; garden_htlc_event_filter = none };
  orderbook = record { order_book_abi = none };
}

-- A panic in one of the goroutines that call Start ends the process.
abbrev pub crash_of_starts : List (Outcome (Unit {0}) × Watcher Handler) → Option Panic
crash_of_starts [] = none
crash_of_starts ((panic p, w) ∷ rs) = some p
crash_of_starts ((_, w) ∷ rs) = crash_of_starts rs

abbrev pub running_unless :
    {Handle : Type 0} → Option Panic → Running Handle → Outcome (Running Handle)
running_unless none r = ok r
running_unless (some p) r = panic p

-- An error of setupWatchers is logged; its `watchers` are nil then, and RunWatcher goes on.
unfoldable pub start_watchers :
    {Handle : Type 0}
    → Context Handle
    → Outcome (List (Watcher Handler)) × Globals
    → Outcome (Running Handle)
start_watchers ctx (ok watchers, s) =
    running_unless (crash_of_starts (map start watchers))
      (record { context = ctx; watchers = map start watchers })
start_watchers ctx (err e, s) = ok (record { context = ctx; watchers = [] })
start_watchers ctx (panic p, s) = panic p

module _ {Handle Db Contract : Type 0} (g : Gorm Handle Db) (o : Outside Contract) where
  unfoldable pub with_store : Config → Outcome (Store Handle) × Db → Outcome (Running Handle) × Db
  unfolding start_watchers
  with_store cfg (ok store, s) = (
    start_watchers (context_with_store (with_cancel background) store)
        (setup_watchers o cfg no_globals),
    s,
  )
  with_store cfg (err e, s) = (err e, s)
  with_store cfg (panic p, s) = (panic p, s)

  abbrev pub connected : Config → Outcome Handle → Db → Outcome (Running Handle) × Db
  connected cfg (ok db) s = with_store cfg (new_store g db s)
  connected cfg (err e) s = (err e, s)
  connected cfg (panic p) s = (panic p, s)

  abbrev pub logging :
      Config → Outcome (Unit {0}) → Outcome Handle → Db → Outcome (Running Handle) × Db
  logging cfg (ok logger) db s = connected cfg db s
  logging cfg (err e) db s = (err e, s)
  logging cfg (panic p) db s = (panic p, s)

  unfoldable pub run_watcher : Machine Handle → Config → Db → Outcome (Running Handle) × Db
  unfolding with_store
  run_watcher machine cfg s =
      logging cfg (must machine.new_logger) (must (machine.open_database cfg.psql_db)) s

  -- The `main` of both commands, which differ in the file.
  unfoldable pub run_main :
      Bytes → (Bytes → Outcome Bytes) → Machine Handle → Db → Outcome (Running Handle) × Db
  run_main file open_file machine s = elim (load_configuration open_file file) [
    | ok cfg ↦ run_watcher machine cfg s
    | err e ↦ (err e, s)
    | panic p ↦ (panic p, s)
  ]

-- The files that cmd/watcher and cmd/local load.
abbrev pub config_file : Bytes
config_file = ascii "config.json"

abbrev pub local_config_file : Bytes
local_config_file = ascii "local_config.json"
