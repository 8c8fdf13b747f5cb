-- ===== src/Handlers/Orderbook/Created.antt =====
-- What handleCreatedEvent stores, and how it fails.
use garden_evm_watcher.Common.{
  ℕ, ℤ, pos, none, ◌++◌, ◌%◌, ◌<◌, ◌≤◌, ◌≡◌, refl, sym, ap, subst, Bytes, some, Outcome, ok, panic,
  slice_out_of_range, lt→ltb, le→ltb_false, if◌then◌else◌, length, drop, magnitude, uint64_mod,
  wrap_error,
}
use garden_evm_watcher.Ethereum.{Log}
use garden_evm_watcher.Model.Rows.{CreateOrder}
use garden_evm_watcher.Store.Gorm.{Gorm, IsLawful, stamp}
use garden_evm_watcher.Store.Methods.{
  Store, Context, store_from_context, write_create_order, read_create_order,
}
use garden_evm_watcher.Store.Orders.{Adds, write_create_order-Written, read-write_create_order}
use garden_evm_watcher.Handlers.Hex.{encode_to_string}
use garden_evm_watcher.Handlers.Sha256.{sum256}
use garden_evm_watcher.Handlers.Orderbook.{
  EvmOrder, create_id, order_row, uint64, slice_from_96, handle_created_event,
}

slice_from_96-ok : (bytes : Bytes) → 96 ≤ length bytes → slice_from_96 bytes ≡ ok (drop 96 bytes)
slice_from_96-ok bytes h =
    ap (λ b. if b then panic slice_out_of_range else ok (drop 96 bytes))
      (le→ltb_false (length bytes) 96 h)

slice_from_96-short :
    (bytes : Bytes) → length bytes < 96 → slice_from_96 bytes ≡ panic slice_out_of_range
slice_from_96-short bytes h =
    ap (λ b. if b then panic slice_out_of_range else ok (drop 96 bytes))
      (lt→ltb (length bytes) 96 h)

-- The row of an order's event, time stamps apart: under the hash of the transaction's hash and the
-- secret's hash, with each field of the order, the two uint64 columns holding the low 64 bits of
-- `x` and `y`.
pub record Describes (log : Log) (order : EvmOrder) (x y : ℤ) (row : CreateOrder) : Type 0 where
  pub create_id : row.create_id ≡ encode_to_string (sum256 (log.tx_hash ++ order.secret_hash))
  pub live : row.deleted_at ≡ none
  pub block_number : row.block_number ≡ some (pos log.block_number)
  pub source_chain : row.source_chain ≡ order.source_chain
  pub destination_chain : row.destination_chain ≡ order.destination_chain
  pub source_asset : row.source_asset ≡ order.source_asset
  pub destination_asset : row.destination_asset ≡ order.destination_asset
  pub initiator_source_address : row.initiator_source_address ≡ order.initiator_source_address
  pub initiator_destination_address :
      row.initiator_destination_address ≡ order.initiator_destination_address
  pub source_amount : row.source_amount ≡ order.source_amount
  pub destination_amount : row.destination_amount ≡ order.destination_amount
  pub fee : row.fee ≡ order.fee
  pub nonce : row.nonce ≡ order.nonce
  pub min_destination_confirmations : row.min_destination_confirmations ≡ magnitude x % uint64_mod
  pub time_lock : row.time_lock ≡ magnitude y % uint64_mod
  pub secret_hash : row.secret_hash ≡ order.secret_hash

order_row-Describes :
    (log : Log) (order : EvmOrder) (x y : ℤ) (t : ℕ)
    → Describes log order x y
        (stamp t (order_row log order (magnitude x % uint64_mod) (magnitude y % uint64_mod)))
unfolding order_row create_id
order_row-Describes log order x y t = record {
  create_id = refl;
  live = refl;
  block_number = refl;
  source_chain = refl;
  destination_chain = refl;
  source_asset = refl;
  destination_asset = refl;
  initiator_source_address = refl;
  initiator_destination_address = refl;
  source_amount = refl;
  destination_amount = refl;
  fee = refl;
  nonce = refl;
  min_destination_confirmations = refl;
  time_lock = refl;
  secret_hash = refl;
}

module _ {Handle Db : Type 0} (g : Gorm Handle Db) (unpack : Bytes → Outcome EvmOrder)
    (ctx : Context Handle) (store : Store Handle) (has_store : store_from_context ctx ≡ ok store)
    (log : Log) where
  -- With a store in the context, an event whose data is shorter than its three words makes the
  -- handler panic.
  pub handle_created_event-short :
      (db : Db)
      → length log.payload < 96
      → handle_created_event g unpack ctx log db ≡ (panic slice_out_of_range, db)
  unfolding handle_created_event
  handle_created_event-short db h = rw has_store (rw (slice_from_96-short log.payload h) refl)

  module _ (long : 96 ≤ length log.payload) where
    module _ (order : EvmOrder) (x y : ℤ) (unpacked : unpack (drop 96 log.payload) ≡ ok order)
        (confirmations : order.min_destination_confirmations ≡ some x)
        (lock : order.time_lock ≡ some y) where
      -- The two uint64 columns hold the low 64 bits of the numbers in the event.
      abbrev pub stored_row : CreateOrder
      stored_row = order_row log order (magnitude x % uint64_mod) (magnitude y % uint64_mod)

      pub handle_created_event-writes :
          (db : Db)
          → handle_created_event g unpack ctx log db ≡ write_create_order g store stored_row db
      unfolding handle_created_event
      handle_created_event-writes db = rw has_store (
          rw (slice_from_96-ok log.payload long)
            (rw (unpacked, wrap_error) (rw (confirmations, uint64) (rw (lock, uint64) refl))))

      module _ (l : IsLawful g) where
        -- With a store in the context and an order that can be unpacked and has its two numbers: if
        -- the handler succeeds, it has added one row under the hash of the transaction and the
        -- secret's hash, an ID that was free, with every field of the event's order in its column
        -- and the two numbers modulo 2^64; lookups of other orders, and the swaps, are as before.
        pub handle_created_event-Written :
            (db : Db)
            → (handle_created_event g unpack ctx log db).0 ≡ ok tt
            → (row : CreateOrder) × Describes log order x y row
              × Adds g l row db (handle_created_event g unpack ctx log db).1
        handle_created_event-Written db e =
            subst
              (λ r.
                r.0 ≡ ok tt
                → (row : CreateOrder) × Describes log order x y row × Adds g l row db r.1)
              (sym (handle_created_event-writes db))
              (λ done.
                let w =
                  write_create_order-Written g l store stored_row db (unfold order_row in refl)
                    done in
                (
                  stamp w.time stored_row,
                  order_row-Describes log order x y w.time,
                  record {
                    lookups = w.lookups;
                    was_new = w.was_new;
                    ids_distinct = w.ids_distinct;
                    same_swaps = w.same_swaps;
                  },
                ))
              e

        -- With a store in the context and an order that can be unpacked and has its two numbers: if
        -- the handler succeeds, an order that ReadCreateOrder then returns under the hash of the
        -- transaction and the secret's hash has every field of the event's order, the two numbers
        -- modulo 2^64.
        pub read-handle_created_event :
            (db : Db) (p : CreateOrder)
            → (handle_created_event g unpack ctx log db).0 ≡ ok tt
            → (read_create_order g store
                (encode_to_string (sum256 (log.tx_hash ++ order.secret_hash)))
                (handle_created_event g unpack ctx log db).1).0
              ≡ ok p
            → Describes log order x y p
        unfolding create_id
        read-handle_created_event db p =
            subst
              (λ r.
                r.0 ≡ ok tt
                → (read_create_order g store (create_id log order) r.1).0 ≡ ok p
                → Describes log order x y p)
              (sym (handle_created_event-writes db))
              (λ done found.
                let stamped : (t : ℕ) × (p ≡ stamp t stored_row) =
                  unfold order_row in
                  read-write_create_order g l store stored_row p db refl done found in
                let (t, same) = stamped in
                subst (Describes log order x y) (sym same) (order_row-Describes log order x y t))
