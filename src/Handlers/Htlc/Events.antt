-- ===== src/Handlers/Htlc/Events.antt =====
-- What the handlers of the HTLC package do to the swaps table, and the handlers that it installs.
use garden_evm_watcher.Common.{
  pos, ◌≡◌, refl, subst, Bytes, bytes_comparable, some, Outcome, ok, err, panic, Error, Panic,
  continue,
}
use garden_evm_watcher.Ethereum.{Hash, Log}
use garden_evm_watcher.Model.Rows.{BigInt, Swap}
use garden_evm_watcher.Store.Gorm.{Gorm, IsLawful}
use garden_evm_watcher.Store.Methods.{Store, Context, store_from_context}
use garden_evm_watcher.Store.Update.{
  Updated, initiate_row, redeem_row, refund_row, update_swap_initiate-Updated,
  update_swap_redeem-Updated, update_swap_refund-Updated,
}
use garden_evm_watcher.Handlers.Hex.{encode_to_string}
use garden_evm_watcher.Handlers.Htlc.{
  Initiated, Redeemed, Refunded, Filterer, Handler, Globals, initiated, redeemed, refunded, call,
  apply_initiated, apply_redeemed, apply_refunded, handle_initiated_event, handle_redeemed_event,
  handle_refunded_event, filterer_of,
}

-- A change of the swaps table that an event asks for: the swap, and what its rows get.
pub data SwapEvent : Type 0 where
  initiates : Bytes → Bytes → BigInt → BigInt → SwapEvent
  redeems : Bytes → Bytes → Bytes → BigInt → SwapEvent
  refunds : Bytes → Bytes → BigInt → SwapEvent

abbrev pub swap_of : SwapEvent → Bytes
swap_of (initiates id tx amount block) = id
swap_of (redeems id tx secret block) = id
swap_of (refunds id tx block) = id

abbrev pub row_of : SwapEvent → Swap → Swap
row_of (initiates id tx amount block) = initiate_row tx amount block
row_of (redeems id tx secret block) = redeem_row tx secret block
row_of (refunds id tx block) = refund_row tx block

module _ (hash_text : Hash → Bytes) where
  abbrev pub initiates_of : Outcome Initiated → Outcome SwapEvent
  initiates_of (ok e) = ok (
      initiates (encode_to_string e.order_id) (hash_text e.raw.tx_hash) e.amount
        (some (pos e.raw.block_number)))
  initiates_of (err x) = err x
  initiates_of (panic p) = panic p

  abbrev pub redeems_of : Outcome Redeemed → Outcome SwapEvent
  redeems_of (ok e) = ok (
      redeems (encode_to_string e.order_id) (hash_text e.raw.tx_hash) e.secret
        (some (pos e.raw.block_number)))
  redeems_of (err x) = err x
  redeems_of (panic p) = panic p

  abbrev pub refunds_of : Outcome Refunded → Outcome SwapEvent
  refunds_of (ok e) = ok (
      refunds (encode_to_string e.order_id) (hash_text e.raw.tx_hash)
        (some (pos e.raw.block_number)))
  refunds_of (err x) = err x
  refunds_of (panic p) = panic p

  -- The change that a log means to a handler, as the binding's filterer reads it.
  abbrev pub meaning : Filterer → Handler → Log → Outcome SwapEvent
  meaning f initiated log = initiates_of (f.parse_initiated log)
  meaning f redeemed log = redeems_of (f.parse_redeemed log)
  meaning f refunded log = refunds_of (f.parse_refunded log)

  module _ {Handle Db : Type 0} (g : Gorm Handle Db) (l : IsLawful g) where
    -- A handler updates the swap that its log names as the log says; a log that cannot be parsed
    -- gives its error and changes nothing.
    pub data Handles (s : Store Handle) (r : Outcome SwapEvent) (db : Db)
        (out : Outcome (Unit {0}) × Db) : Type 0 where
      updates :
          (e : SwapEvent)
          → r ≡ ok e
          → Updated g l s.db (row_of e) (swap_of e) db out
          → Handles s r db out
      unreadable : (x : Error) → r ≡ err x → out ≡ (err x, db) → Handles s r db out
      breaks : (p : Panic) → r ≡ panic p → out ≡ (panic p, db) → Handles s r db out

    initiated-Handles :
        (s : Store Handle) (db : Db) (r : Outcome Initiated)
        → Handles s (initiates_of r) db (continue (r, db) (apply_initiated g hash_text s))
    unfolding apply_initiated
    initiated-Handles s db (ok e) = updates _ refl (update_swap_initiate-Updated g l s _ _ _ _ db)
    initiated-Handles s db (err x) = unreadable x refl refl
    initiated-Handles s db (panic p) = breaks p refl refl

    redeemed-Handles :
        (s : Store Handle) (db : Db) (r : Outcome Redeemed)
        → Handles s (redeems_of r) db (continue (r, db) (apply_redeemed g hash_text s))
    unfolding apply_redeemed
    redeemed-Handles s db (ok e) = updates _ refl (update_swap_redeem-Updated g l s _ _ _ _ db)
    redeemed-Handles s db (err x) = unreadable x refl refl
    redeemed-Handles s db (panic p) = breaks p refl refl

    refunded-Handles :
        (s : Store Handle) (db : Db) (r : Outcome Refunded)
        → Handles s (refunds_of r) db (continue (r, db) (apply_refunded g hash_text s))
    unfolding apply_refunded
    refunded-Handles s db (ok e) = updates _ refl (update_swap_refund-Updated g l s _ _ _ db)
    refunded-Handles s db (err x) = unreadable x refl refl
    refunded-Handles s db (panic p) = breaks p refl refl

    -- With a store in the context and a filterer set, a handler updates every live row of the swap
    -- that its log names as the log says, or returns an error and changes nothing if there is no
    -- such row or the database fails on this very update; a log that cannot be parsed gives its
    -- error and changes nothing.
    pub call-Handles :
        (globals : Globals) (ctx : Context Handle) (store : Store Handle) (filterer : Filterer)
        → store_from_context ctx ≡ ok store
        → globals.garden_htlc_event_filter ≡ some filterer
        → (h : Handler) (log : Log) (db : Db)
        → Handles store (meaning filterer h log) db (call g hash_text h globals ctx log db)
    unfolding call handle_initiated_event handle_redeemed_event handle_refunded_event
    call-Handles globals ctx store filterer has_store has_filterer initiated log db =
        subst (Handles store (initiates_of (filterer.parse_initiated log)) db)
          (rw has_store (rw (has_filterer, filterer_of) refl))
          (initiated-Handles store db (filterer.parse_initiated log))
    call-Handles globals ctx store filterer has_store has_filterer redeemed log db =
        subst (Handles store (redeems_of (filterer.parse_redeemed log)) db)
          (rw has_store (rw (has_filterer, filterer_of) refl))
          (redeemed-Handles store db (filterer.parse_redeemed log))
    call-Handles globals ctx store filterer has_store has_filterer refunded log db =
        subst (Handles store (refunds_of (filterer.parse_refunded log)) db)
          (rw has_store (rw (has_filterer, filterer_of) refl))
          (refunded-Handles store db (filterer.parse_refunded log))
