-- ===== src/Handlers/Atomic.antt =====
-- Handlers that do not succeed.
use garden_evm_watcher.Common.{
  refl, Option, none, some, panic, nil_pointer, Bytes, Outcome, ok, Exec, lift, continue,
  wrap_error, ascii,
}
use garden_evm_watcher.Ethereum.{Log, Hash}
use garden_evm_watcher.Store.Gorm.{Gorm, IsLawful}
use garden_evm_watcher.Store.Methods.{Context, store_from_context}
use garden_evm_watcher.Store.Update.{
  update_swap_initiate-Updated, update_swap_redeem-Updated, update_swap_refund-Updated,
}
use garden_evm_watcher.Store.Atomic.{
  IsAtomic, continue-IsAtomic, write_create_order-IsAtomic, Updated-IsAtomic,
}
use garden_evm_watcher.Handlers.Htlc
use garden_evm_watcher.Handlers.Htlc.{
  handle_initiated_event, handle_redeemed_event, handle_refunded_event, apply_initiated,
  apply_redeemed, apply_refunded, filterer_of,
}
use garden_evm_watcher.Handlers.Orderbook
use garden_evm_watcher.Handlers.Orderbook.{
  EvmOrder, handle_created_event, handle_filled_event, slice_from_96, uint64,
}

module _ {Handle Db : Type 0} (g : Gorm Handle Db) (l : IsLawful g) where
  handle_created_event-IsAtomic :
      (unpack : Bytes → Outcome EvmOrder) (ctx : Context Handle) (log : Log) (db : Db)
      → IsAtomic g l db (handle_created_event g unpack ctx log db)
  unfolding handle_created_event
  handle_created_event-IsAtomic unpack ctx log db =
      continue-IsAtomic g l (store_from_context ctx) _ db (λ store.
        continue-IsAtomic g l (slice_from_96 log.payload) _ db (λ bytes.
          continue-IsAtomic g l
            (wrap_error (ascii "failed to unpack create order event") (unpack bytes)) _ db
            (λ order. continue-IsAtomic g l (uint64 order.min_destination_confirmations) _ db (λ x.
              continue-IsAtomic g l (uint64 order.time_lock) _ db
                (λ y. write_create_order-IsAtomic g l store _ db)))))

  -- A handler of the order book that does not succeed, for want of a store, data that is too short
  -- or cannot be unpacked, a missing number or a database error, has changed neither the swaps nor
  -- the orders.
  pub orderbook-IsAtomic :
      (unpack : Bytes → Outcome EvmOrder) (h : Orderbook.Handler) (ctx : Context Handle) (log : Log)
      (db : Db)
      → IsAtomic g l db (Orderbook.call g unpack h ctx log db)
  unfolding Orderbook.call handle_filled_event
  orderbook-IsAtomic unpack Orderbook.created ctx log db =
      handle_created_event-IsAtomic unpack ctx log db
  orderbook-IsAtomic unpack Orderbook.filled ctx log db = record {
    same_swaps = λ n. absurd (n refl);
    same_orders = λ n. absurd (n refl);
  }

  filterer_of-IsAtomic :
      (filterer : Option Htlc.Filterer) (f : Htlc.Filterer → Exec Db (Unit {0})) (db : Db)
      → ((a : Htlc.Filterer) → IsAtomic g l db (f a db))
      → IsAtomic g l db (
          continue
            ((elim filterer as (λ x. Exec Db Htlc.Filterer) [
              | none ↦ lift (panic nil_pointer)
              | some a ↦ lift (ok a)
            ])
              db)
            f)
  filterer_of-IsAtomic none f db h = continue-IsAtomic g l (panic nil_pointer) f db h
  filterer_of-IsAtomic (some a) f db h = h a

  -- A handler of the HTLC package that does not succeed, for want of a store or a filterer, a log
  -- that cannot be parsed, a missing swap or a database error, has changed neither the swaps nor
  -- the orders.
  pub htlc-IsAtomic :
      (hash_text : Hash → Bytes) (h : Htlc.Handler) (globals : Htlc.Globals) (ctx : Context Handle)
      (log : Log) (db : Db)
      → IsAtomic g l db (Htlc.call g hash_text h globals ctx log db)
  unfolding Htlc.call handle_initiated_event handle_redeemed_event handle_refunded_event
      apply_initiated apply_redeemed apply_refunded
  htlc-IsAtomic hash_text Htlc.initiated globals ctx log db =
      continue-IsAtomic g l (store_from_context ctx) _ db (λ store.
        filterer_of-IsAtomic globals.garden_htlc_event_filter _ db (λ filterer.
          continue-IsAtomic g l (filterer.parse_initiated log) _ db (λ event.
            Updated-IsAtomic g l _ _ _ db _ (update_swap_initiate-Updated g l store _ _ _ _ db))))
  htlc-IsAtomic hash_text Htlc.redeemed globals ctx log db =
      continue-IsAtomic g l (store_from_context ctx) _ db (λ store.
        filterer_of-IsAtomic globals.garden_htlc_event_filter _ db (λ filterer.
          continue-IsAtomic g l (filterer.parse_redeemed log) _ db (λ event.
            Updated-IsAtomic g l _ _ _ db _ (update_swap_redeem-Updated g l store _ _ _ _ db))))
  htlc-IsAtomic hash_text Htlc.refunded globals ctx log db =
      continue-IsAtomic g l (store_from_context ctx) _ db (λ store.
        filterer_of-IsAtomic globals.garden_htlc_event_filter _ db (λ filterer.
          continue-IsAtomic g l (filterer.parse_refunded log) _ db (λ event.
            Updated-IsAtomic g l _ _ _ db _ (update_swap_refund-Updated g l store _ _ _ db))))
