-- ===== src/Store/Orders.antt =====
-- Writing and reading create orders.
use garden_evm_watcher.Common.{
  ℕ, ◌≡◌, refl, sym, ap, ◌∙◌, if◌then◌else◌, Bytes, bytes_comparable, same_bytes_iff, ◌==◌, List,
  [], ◌∷◌, ◌++◌, none, some, ok, arith, inl, inr, In, Distinct, In-append,
}
use garden_evm_watcher.Model.Rows.{CreateOrder}
use garden_evm_watcher.Store.Gorm.{Gorm, IsLawful, stamp, find_order, order_ids}
use garden_evm_watcher.Store.Methods.{Store, write_create_order, read_create_order}

find_order-append :
    (id : Bytes) (os : List CreateOrder) (o : CreateOrder)
    → ¬ In o.create_id (order_ids os)
    → o.deleted_at ≡ none
    → find_order id (os ++ o ∷ []) ≡ (if o.create_id == id then some o else find_order id os)
find_order-append id [] o h live = ground arith
find_order-append id (p ∷ os) o h live = ground (
  arith,
  find_order-append id os o (λ m. h (inr m)) live,
  same_bytes_iff o.create_id id,
  same_bytes_iff p.create_id id,
  λ (e : o.create_id ≡ p.create_id). h (inl e),
)

ids-append :
    (os : List CreateOrder) (o : CreateOrder)
    → order_ids (os ++ o ∷ []) ≡ order_ids os ++ o.create_id ∷ []
ids-append [] o = refl
ids-append (p ∷ os) o = ap (λ ids. p.create_id ∷ ids) (ids-append os o)

Distinct-snoc :
    (ids : List Bytes) (id : Bytes) → Distinct ids → ¬ In id ids → Distinct (ids ++ id ∷ [])
Distinct-snoc [] id d h = ((λ m. m), tt)
Distinct-snoc (j ∷ ids) id d h = (fresh, Distinct-snoc ids id d.1 (λ m. h (inr m)))
  where
    fresh : ¬ In j (ids ++ id ∷ [])
    fresh m = elim (In-append j ids (id ∷ []) m) [
      | inl old ↦ d.0 old
      | inr (inl e) ↦ h (inl (sym e))
      | inr (inr nowhere) ↦ nowhere
    ]

module _ {Handle Db : Type 0} (g : Gorm Handle Db) (l : IsLawful g) where
  -- One row was added, under a free ID, and nothing else is different.
  pub record Adds (row : CreateOrder) (db db' : Db) : Type 0 where
    pub lookups :
        (id : Bytes)
        → find_order id (l.orders db')
          ≡ (if row.create_id == id then some row else find_order id (l.orders db))
    pub was_new : ¬ In row.create_id (order_ids (l.orders db))
    pub ids_distinct : Distinct (order_ids (l.orders db)) → Distinct (order_ids (l.orders db'))
    pub same_swaps : l.swaps db' ≡ l.swaps db

  -- What a successful WriteCreateOrder leaves behind.
  pub record Written (o : CreateOrder) (db db' : Db) : Type 0 where
    pub time : ℕ
    pub lookups :
        (id : Bytes)
        → find_order id (l.orders db')
          ≡ (if o.create_id == id then some (stamp time o) else find_order id (l.orders db))
    pub was_new : ¬ In o.create_id (order_ids (l.orders db))
    pub ids_distinct : Distinct (order_ids (l.orders db)) → Distinct (order_ids (l.orders db'))
    pub same_swaps : l.swaps db' ≡ l.swaps db

  -- A successful WriteCreateOrder of an order that is not soft-deleted adds exactly this order,
  -- under an ID that was free.
  pub write_create_order-Written :
      (s : Store Handle) (o : CreateOrder) (db : Db)
      → o.deleted_at ≡ none
      → (write_create_order g s o db).0 ≡ ok tt
      → Written o db (write_create_order g s o db).1
  unfolding write_create_order
  write_create_order-Written s o db live e =
      let (fresh, (t, added), same) = l.create_ok s.db o db e in
      record {
        time = t;
        lookups = λ id.
            ap (find_order id) added ∙ find_order-append id (l.orders db) (stamp t o) fresh live;
        was_new = fresh;
        ids_distinct =
            λ d. rw (added, ids-append (l.orders db) (stamp t o)) (Distinct-snoc _ _ d fresh);
        same_swaps = same;
      }

  -- After a successful WriteCreateOrder of an order that is not soft-deleted, an order that
  -- ReadCreateOrder returns for its ID is the one that was written, with the database's time
  -- stamps.
  pub read-write_create_order :
      (s : Store Handle) (o p : CreateOrder) (db : Db)
      → o.deleted_at ≡ none
      → (write_create_order g s o db).0 ≡ ok tt
      → (read_create_order g s o.create_id (write_create_order g s o db).1).0 ≡ ok p
      → (t : ℕ) × (p ≡ stamp t o)
  unfolding read_create_order
  read-write_create_order s o p db live e r =
      let w = write_create_order-Written s o db live e in
      let found = l.first_reads s.db o.create_id (write_create_order g s o db).1 p r in
      (w.time, ground (arith, found, w.lookups o.create_id, same_bytes_iff o.create_id o.create_id))
