-- ===== src/Handlers/Orderbook/Swaps.antt =====
-- The handlers of the order book and the swaps table.
use garden_evm_watcher.Common.{
  ◌≡◌, refl, Bytes, ascii, Outcome, ok, err, panic, Exec, continue, view, returned, failed, crashed,
  wrap_error,
}
use garden_evm_watcher.Ethereum.{Log}
use garden_evm_watcher.Model.Rows.{CreateOrder}
use garden_evm_watcher.Store.Gorm.{Gorm, IsLawful}
use garden_evm_watcher.Store.Methods.{Store, Context, store_from_context, write_create_order}
use garden_evm_watcher.Handlers.Orderbook.{
  EvmOrder, Handler, created, filled, call, handle_created_event, handle_filled_event,
  slice_from_96, uint64, order_row,
}

module _ {Handle Db : Type 0} (g : Gorm Handle Db) (l : IsLawful g) where
  lift-keeps :
      {A : Type 0} (r : Outcome A) (f : A → Exec Db (Unit {0})) (db : Db)
      → ((a : A) → l.swaps (f a db).1 ≡ l.swaps db)
      → l.swaps (continue (r, db) f).1 ≡ l.swaps db
  lift-keeps (ok a) f db h = h a
  lift-keeps (err e) f db h = refl
  lift-keeps (panic p) f db h = refl

  write_create_order-keeps :
      (s : Store Handle) (o : CreateOrder) (db : Db)
      → l.swaps (write_create_order g s o db).1 ≡ l.swaps db
  unfolding write_create_order
  write_create_order-keeps s o db = elim (view (g.create_order s.db o db).0) [
    | returned u eq ↦ let (_, _, same) = l.create_ok s.db o db eq in same
    | failed e eq ↦ (l.create_fails s.db o db (λ h. cc (h, eq))).0
    | crashed p eq ↦ (l.create_fails s.db o db (λ h. cc (h, eq))).0
  ]

  module _ (unpack : Bytes → Outcome EvmOrder) where
    handle_created_event-keeps :
        (ctx : Context Handle) (log : Log) (db : Db)
        → l.swaps (handle_created_event g unpack ctx log db).1 ≡ l.swaps db
    unfolding handle_created_event
    handle_created_event-keeps ctx log db = lift-keeps (store_from_context ctx) _ db λ s.
        lift-keeps (slice_from_96 log.payload) _ db λ bytes.
          lift-keeps (wrap_error (ascii "failed to unpack create order event") (unpack bytes)) _ db
            λ order. lift-keeps (uint64 order.min_destination_confirmations) _ db λ x.
              lift-keeps (uint64 order.time_lock) _ db
                λ y. write_create_order-keeps s (order_row log order x y) db

    -- However they end, the handlers of the order book leave the swaps as they are.
    pub call-keeps :
        (h : Handler) (ctx : Context Handle) (log : Log) (db : Db)
        → l.swaps (call g unpack h ctx log db).1 ≡ l.swaps db
    unfolding call handle_filled_event
    call-keeps created ctx log db = handle_created_event-keeps ctx log db
    call-keeps filled ctx log db = refl
