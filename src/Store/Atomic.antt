-- ===== src/Store/Atomic.antt =====
-- Calls on the store that leave the tables as they were unless they succeed.
use garden_evm_watcher.Common.{◌≡◌, ◌≢◌, refl, Outcome, ok, err, panic, Exec, continue, Bytes}
use garden_evm_watcher.Model.Rows.{Swap, CreateOrder}
use garden_evm_watcher.Store.Gorm.{Gorm, IsLawful}
use garden_evm_watcher.Store.Methods.{Store, write_create_order}
use garden_evm_watcher.Store.Update.{Updated, wrote, not_there, database_failed}

module _ {Handle Db : Type 0} (g : Gorm Handle Db) (l : IsLawful g) where
  -- A call from `db` with this result and this database after it.
  pub record IsAtomic (db : Db) (out : Outcome (Unit {0}) × Db) : Type 0 where
    pub same_swaps : out.0 ≢ ok tt → l.swaps out.1 ≡ l.swaps db
    pub same_orders : out.0 ≢ ok tt → l.orders out.1 ≡ l.orders db

  -- What comes before a write reads nothing and may fail.
  pub continue-IsAtomic :
      {A : Type 0} (r : Outcome A) (f : A → Exec Db (Unit {0})) (db : Db)
      → ((a : A) → IsAtomic db (f a db))
      → IsAtomic db (continue (r, db) f)
  continue-IsAtomic (ok a) f db h = h a
  continue-IsAtomic (err e) f db h = record { same_swaps = λ n. refl; same_orders = λ n. refl }
  continue-IsAtomic (panic p) f db h = record { same_swaps = λ n. refl; same_orders = λ n. refl }

  pub write_create_order-IsAtomic :
      (s : Store Handle) (o : CreateOrder) (db : Db) → IsAtomic db (write_create_order g s o db)
  unfolding write_create_order
  write_create_order-IsAtomic s o db = record {
    same_swaps = λ n. (l.create_fails s.db o db n).0;
    same_orders = λ n. (l.create_fails s.db o db n).1;
  }

  pub Updated-IsAtomic :
      (h : Handle) (f : Swap → Swap) (id : Bytes) (db : Db) (out : Outcome (Unit {0}) × Db)
      → Updated g l h f id db out
      → IsAtomic db out
  Updated-IsAtomic h f id db out (wrote t fine some rows same) = record {
    same_swaps = λ n. absurd (n fine);
    same_orders = λ n. absurd (n fine);
  }
  Updated-IsAtomic h f id db out (not_there r none_there swaps orders) = record {
    same_swaps = λ n. swaps;
    same_orders = λ n. orders;
  }
  Updated-IsAtomic h f id db out (database_failed cs same failed r swaps orders) = record {
    same_swaps = λ n. swaps;
    same_orders = λ n. orders;
  }
