-- ===== src/Store/Update.antt =====
-- What the three update methods do to the swaps table.
use garden_evm_watcher.Common.{
  ℕ, zero, suc, ◌<◌, ◌≡◌, ◌≢◌, refl, sym, ap, ◌∙◌, Bytes, List, [], ◌∷◌, map, Outcome, ok, err,
  panic, no_swap_found, arith,
}
use garden_evm_watcher.Model.Rows.{BigInt, Swap}
use garden_evm_watcher.Store.Gorm.{Gorm, IsLawful, Columns, set_columns, update_row, count_targets}
use garden_evm_watcher.Store.Methods.{
  Store, check_rows, update_swap_initiate, update_swap_redeem, update_swap_refund,
}

-- What each method writes into a row of its swap.
abbrev pub initiate_row : Bytes → BigInt → BigInt → Swap → Swap
initiate_row tx amount block row = record row {
  initiate_tx_hash = tx;
  filled_amount = amount;
  initiate_block_number = block;
}

abbrev pub redeem_row : Bytes → Bytes → BigInt → Swap → Swap
redeem_row tx secret block row = record row {
  redeem_tx_hash = tx;
  secret = secret;
  redeem_block_number = block;
}

abbrev pub refund_row : Bytes → BigInt → Swap → Swap
refund_row tx block row = record row { refund_tx_hash = tx; refund_block_number = block }

module _ {Handle Db : Type 0} (g : Gorm Handle Db) (l : IsLawful g) where
  -- The update wrote `f` into every live row of the swap, one or more, and into no other row; or
  -- there was no such row, nothing changed and the caller is told; or the database failed on the
  -- very update and nothing changed.
  pub data Updated (h : Handle) (f : Swap → Swap) (id : Bytes) (db : Db)
      (r : Outcome (Unit {0}) × Db) : Type 0 where
    wrote :
        (t : ℕ)
        → r.0 ≡ ok tt
        → 0 < count_targets id (l.swaps db)
        → l.swaps r.1 ≡ map (update_row f id t) (l.swaps db)
        → l.orders r.1 ≡ l.orders db
        → Updated h f id db r
    not_there :
        r.0 ≡ err no_swap_found
        → count_targets id (l.swaps db) ≡ 0
        → l.swaps r.1 ≡ l.swaps db
        → l.orders r.1 ≡ l.orders db
        → Updated h f id db r
    database_failed :
        (cs : Columns)
        → ((row : Swap) → set_columns cs row ≡ f row)
        → ((n : ℕ) → (g.update_swaps h id cs db).0 ≢ ok n)
        → r.0 ≢ ok tt
        → l.swaps r.1 ≡ l.swaps db
        → l.orders r.1 ≡ l.orders db
        → Updated h f id db r

  no_targets :
      (f : Swap → Swap) (id : Bytes) (t : ℕ) (rows : List Swap)
      → count_targets id rows ≡ 0
      → map (update_row f id t) rows ≡ rows
  no_targets f id t [] e = refl
  no_targets f id t (row ∷ rows) e = ground (arith, no_targets f id t rows)

  check_rows-Updated :
      (h : Handle) (id : Bytes) (cs : Columns) (db : Db)
      → Updated h (set_columns cs) id db (check_rows (g.update_swaps h id cs db))
  check_rows-Updated h id cs db = go (g.update_swaps h id cs db) refl
    where
      unchanged :
          (r : Outcome ℕ) (s : Db) (o : Outcome (Unit {0}))
          → g.update_swaps h id cs db ≡ (r, s)
          → ((n : ℕ) → r ≢ ok n)
          → o ≢ ok tt
          → Updated h (set_columns cs) id db (o, s)
      unchanged r s o e never bad =
          let failed : (n : ℕ) → (g.update_swaps h id cs db).0 ≢ ok n =
            λ n q. never n (ap (λ x. x.0) (sym e) ∙ q) in
          let (swaps, orders) = l.update_fails h id cs db failed in
          database_failed cs (λ row. refl) failed bad (ap (λ x. l.swaps x.1) (sym e) ∙ swaps)
            (ap (λ x. l.orders x.1) (sym e) ∙ orders)

      go :
          (r : Outcome ℕ × Db)
          → g.update_swaps h id cs db ≡ r
          → Updated h (set_columns cs) id db (check_rows r)
      go (ok zero, s) e =
          let (n, (t, written), same) = l.update_ok h id cs db zero (ap (λ x. x.0) e) in
          not_there refl (sym n)
            (ap (λ x. l.swaps x.1) (sym e) ∙ written ∙ no_targets (set_columns cs) id t _ (sym n))
            (ap (λ x. l.orders x.1) (sym e) ∙ same)
      go (ok (suc n), s) e =
          let (count, (t, written), same) = l.update_ok h id cs db (suc n) (ap (λ x. x.0) e) in
          wrote t refl (omega arith) (ap (λ x. l.swaps x.1) (sym e) ∙ written)
            (ap (λ x. l.orders x.1) (sym e) ∙ same)
      go (err x, s) e = unchanged (err x) s (err x) e (λ n q. cc) (λ q. cc)
      go (panic p, s) e = unchanged (panic p) s (panic p) e (λ n q. cc) (λ q. cc)

  -- A database whose updates do not fail.
  pub record IsReliable : Type 0 where
    pub answers :
        (h : Handle) (id : Bytes) (cs : Columns) (db : Db)
        → (n : ℕ) × ((g.update_swaps h id cs db).0 ≡ ok n)

  state-check_rows : (r : Outcome ℕ × Db) → (check_rows r).1 ≡ r.1
  state-check_rows (ok zero, s) = refl
  state-check_rows (ok (suc n), s) = refl
  state-check_rows (err e, s) = refl
  state-check_rows (panic p, s) = refl

  check_rows-reliable :
      IsReliable
      → (h : Handle) (id : Bytes) (cs : Columns) (db : Db)
      → (t : ℕ) × (l.swaps (check_rows (g.update_swaps h id cs db)).1
          ≡ map (update_row (set_columns cs) id t) (l.swaps db))
  check_rows-reliable r h id cs db =
      let (n, eq) = r.answers h id cs db in
      let (_, (t, written), _) = l.update_ok h id cs db n eq in
      (t, ap l.swaps (state-check_rows (g.update_swaps h id cs db)) ∙ written)

  -- What an update of a reliable database does to the swaps table.
  abbrev pub Rewrites : (Swap → Swap) → Bytes → Db → Outcome (Unit {0}) × Db → Type 0
  Rewrites f id db r = (t : ℕ) × (l.swaps r.1 ≡ map (update_row f id t) (l.swaps db))

  pub update_swap_initiate-reliable :
      IsReliable
      → (s : Store Handle) (id tx : Bytes) (amount block : BigInt) (db : Db)
      → Rewrites
          (initiate_row tx amount block)
          id
          db
          (update_swap_initiate g s id tx amount block db)
  unfolding update_swap_initiate
  update_swap_initiate-reliable r s id tx amount block db = check_rows-reliable r s.db id _ db

  pub update_swap_redeem-reliable :
      IsReliable
      → (s : Store Handle) (id tx secret : Bytes) (block : BigInt) (db : Db)
      → Rewrites (redeem_row tx secret block) id db (update_swap_redeem g s id tx secret block db)
  unfolding update_swap_redeem
  update_swap_redeem-reliable r s id tx secret block db = check_rows-reliable r s.db id _ db

  pub update_swap_refund-reliable :
      IsReliable
      → (s : Store Handle) (id tx : Bytes) (block : BigInt) (db : Db)
      → Rewrites (refund_row tx block) id db (update_swap_refund g s id tx block db)
  unfolding update_swap_refund
  update_swap_refund-reliable r s id tx block db = check_rows-reliable r s.db id _ db

  -- UpdateSwapInitiate writes the hash, the amount and the block into every live row of the swap
  -- and nothing else; without such a row, or if the database fails on this very update, it returns
  -- an error and changes nothing.
  pub update_swap_initiate-Updated :
      (s : Store Handle) (id tx : Bytes) (amount block : BigInt) (db : Db)
      → Updated s.db
          (initiate_row tx amount block)
          id
          db
          (update_swap_initiate g s id tx amount block db)
  unfolding update_swap_initiate
  update_swap_initiate-Updated s id tx amount block db = check_rows-Updated s.db id _ db

  -- UpdateSwapRedeem writes the hash, the secret and the block into every live row of the swap and
  -- nothing else; without such a row it returns an error, as when the database fails, and changes
  -- nothing.
  pub update_swap_redeem-Updated :
      (s : Store Handle) (id tx secret : Bytes) (block : BigInt) (db : Db)
      → Updated s.db
          (redeem_row tx secret block)
          id
          db
          (update_swap_redeem g s id tx secret block db)
  unfolding update_swap_redeem
  update_swap_redeem-Updated s id tx secret block db = check_rows-Updated s.db id _ db

  -- UpdateSwapRefund writes the hash and the block into every live row of the swap and nothing
  -- else; without such a row it returns an error, as when the database fails, and changes nothing.
  pub update_swap_refund-Updated :
      (s : Store Handle) (id tx : Bytes) (block : BigInt) (db : Db)
      → Updated s.db (refund_row tx block) id db (update_swap_refund g s id tx block db)
  unfolding update_swap_refund
  update_swap_refund-Updated s id tx block db = check_rows-Updated s.db id _ db
