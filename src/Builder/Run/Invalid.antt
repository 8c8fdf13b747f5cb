-- ===== src/Builder/Run/Invalid.antt =====
-- The commands on a configuration file that is not JSON.
use garden_evm_watcher.Common.{◌≡◌, refl, ap, ◌∙◌, Bytes, [], none, Outcome, ok, err, panic}
use garden_evm_watcher.Store.Gorm.{Gorm}
use garden_evm_watcher.Store.Methods.{background, with_cancel, context_with_store, made, new_store}
use garden_evm_watcher.Json.Parse.{parse_json}
use garden_evm_watcher.Config.Decode.{decode_config, decode_value, zero_config}
use garden_evm_watcher.Config.Load.{load_configuration}
use garden_evm_watcher.Builder.{Outside, add_chains, setup_watchers}
use garden_evm_watcher.Builder.Run.{
  Machine, must, start_watchers, with_store, connected, logging, run_watcher, run_main,
}

module _ {Handle Db Contract : Type 0} (g : Gorm Handle Db) (o : Outside Contract) where
  load-invalid :
      (open_file : Bytes → Outcome Bytes) (file text : Bytes)
      → open_file file ≡ ok text
      → parse_json text ≡ none
      → load_configuration open_file file ≡ ok zero_config
  unfolding load_configuration decode_config
  load-invalid open_file file text opened invalid =
      rw (opened, load_configuration) (ap (λ v. ok (decode_value v).0) invalid)

  no_watchers :
      (h : Handle) (r : Outcome (Unit {0}) × Db)
      → r.0 ≡ ok tt
      → (with_store g o zero_config (made h r)).0
        ≡ ok (record {
          context = context_with_store (with_cancel background) (record { db = h });
          watchers = [];
        })
  unfolding with_store start_watchers setup_watchers add_chains
  no_watchers h (ok u, s) e = refl
  no_watchers h (err x, s) e = cc
  no_watchers h (panic p, s) e = cc

  -- If the configuration file opens but its text is not JSON, and a logger and a database without a
  -- URL can be had, the commands do not stop: they come to wait for a signal with no watcher at
  -- all.
  pub run_main-invalid :
      (file text : Bytes) (open_file : Bytes → Outcome Bytes) (machine : Machine Handle)
      (h : Handle) (s : Db)
      → open_file file ≡ ok text
      → parse_json text ≡ none
      → machine.new_logger ≡ ok tt
      → machine.open_database [] ≡ ok h
      → (g.auto_migrate h s).0 ≡ ok tt
      → (run_main g o file open_file machine s).0
        ≡ ok (record {
          context = context_with_store (with_cancel background) (record { db = h });
          watchers = [];
        })
  unfolding run_main run_watcher new_store
  run_main-invalid file text open_file machine h s opened invalid logger database migrated =
      rw (load-invalid open_file file text opened invalid, run_main)
        (ap (λ l. (logging g o zero_config l (must (machine.open_database [])) s).0)
            (ap must logger)
          ∙ ap (λ d. (connected g o zero_config d s).0) (ap must database)
          ∙ no_watchers h (g.auto_migrate h s) migrated)
