-- ===== src/Handlers/Htlc/Workers.antt =====
-- The workers' runs of the HTLC handlers against the events that their logs mean.
use garden_evm_watcher.Common.{
  ℕ, ◌≡◌, refl, sym, ap, subst, ◌∙◌, Bytes, List, [], ◌∷◌, map, some, Outcome, ok, err, panic,
  continue, arith, bytes_comparable,
}
use mathlib.Core.List.{Perm}
use garden_evm_watcher.Ethereum.{Hash, Log}
use garden_evm_watcher.Model.Rows.{Swap}
use garden_evm_watcher.Watcher.Types.{EventJob}
use garden_evm_watcher.Watcher.Worker.{run_jobs}
use garden_evm_watcher.Store.Gorm.{Gorm, IsLawful, update_row}
use garden_evm_watcher.Store.Methods.{Store, Context, store_from_context}
use garden_evm_watcher.Store.Update.{
  Rewrites, IsReliable, update_swap_initiate-reliable, update_swap_redeem-reliable,
  update_swap_refund-reliable,
}
use garden_evm_watcher.Handlers.Htlc.{
  Initiated, Redeemed, Refunded, Filterer, Handler, Globals, initiated, redeemed, refunded, call,
  apply_initiated, apply_redeemed, apply_refunded, handle_initiated_event, handle_redeemed_event,
  handle_refunded_event, filterer_of,
}
use garden_evm_watcher.Handlers.Htlc.Events.{
  SwapEvent, initiates, redeems, refunds, swap_of, row_of, meaning, initiates_of, redeems_of,
  refunds_of,
}
use garden_evm_watcher.Handlers.Htlc.Order.{
  erase, apply_to_row, apply_events, Agree, apply_events-perm,
}

-- Up to the time stamp, an update of the table is the event applied to each row.
pub erase-update :
    (e : SwapEvent) (t : ℕ) (rows : List Swap)
    → map erase (map (update_row (row_of e) (swap_of e) t) rows)
      ≡ map (apply_to_row e) (map erase rows)
erase-update e t [] = refl
erase-update (initiates id tx a b) t (row ∷ rows) =
    ground (arith, erase-update (initiates id tx a b) t rows)
erase-update (redeems id tx s b) t (row ∷ rows) =
    ground (arith, erase-update (redeems id tx s b) t rows)
erase-update (refunds id tx b) t (row ∷ rows) =
    ground (arith, erase-update (refunds id tx b) t rows)

module _ {Handle Db : Type 0} (g : Gorm Handle Db) (l : IsLawful g) (reliable : IsReliable g l)
    (hash_text : Hash → Bytes) where
  -- The outcome `r` of reading a log, and what its handler does to the table.
  abbrev pub Applies : Outcome SwapEvent → Db → Outcome (Unit {0}) × Db → Type 0
  Applies (ok e) db out = Rewrites g l (row_of e) (swap_of e) db out
  Applies _ db out = Unit

  initiated-Applies :
      (s : Store Handle) (db : Db) (r : Outcome Initiated)
      → Applies (initiates_of hash_text r) db (continue (r, db) (apply_initiated g hash_text s))
  unfolding apply_initiated
  initiated-Applies s db (ok e) = update_swap_initiate-reliable g l reliable s _ _ _ _ db
  initiated-Applies s db (err x) = tt
  initiated-Applies s db (panic p) = tt

  redeemed-Applies :
      (s : Store Handle) (db : Db) (r : Outcome Redeemed)
      → Applies (redeems_of hash_text r) db (continue (r, db) (apply_redeemed g hash_text s))
  unfolding apply_redeemed
  redeemed-Applies s db (ok e) = update_swap_redeem-reliable g l reliable s _ _ _ _ db
  redeemed-Applies s db (err x) = tt
  redeemed-Applies s db (panic p) = tt

  refunded-Applies :
      (s : Store Handle) (db : Db) (r : Outcome Refunded)
      → Applies (refunds_of hash_text r) db (continue (r, db) (apply_refunded g hash_text s))
  unfolding apply_refunded
  refunded-Applies s db (ok e) = update_swap_refund-reliable g l reliable s _ _ _ db
  refunded-Applies s db (err x) = tt
  refunded-Applies s db (panic p) = tt

  module _ (globals : Globals) (ctx : Context Handle) (store : Store Handle) (filterer : Filterer)
      (has_store : store_from_context ctx ≡ ok store)
      (has_filterer : globals.garden_htlc_event_filter ≡ some filterer) where
    pub call-Applies :
        (h : Handler) (log : Log) (db : Db)
        → Applies (meaning hash_text filterer h log) db (call g hash_text h globals ctx log db)
    unfolding call handle_initiated_event handle_redeemed_event handle_refunded_event
    call-Applies initiated log db =
        subst (Applies (initiates_of hash_text (filterer.parse_initiated log)) db)
          (rw has_store (rw (has_filterer, filterer_of) refl))
          (initiated-Applies store db (filterer.parse_initiated log))
    call-Applies redeemed log db =
        subst (Applies (redeems_of hash_text (filterer.parse_redeemed log)) db)
          (rw has_store (rw (has_filterer, filterer_of) refl))
          (redeemed-Applies store db (filterer.parse_redeemed log))
    call-Applies refunded log db =
        subst (Applies (refunds_of hash_text (filterer.parse_refunded log)) db)
          (rw has_store (rw (has_filterer, filterer_of) refl))
          (refunded-Applies store db (filterer.parse_refunded log))

    -- The jobs' logs can be read, and mean these events.
    abbrev pub Mean : List (EventJob Handler) → List SwapEvent → Type 0
    Mean [] [] = Unit
    Mean (job ∷ jobs) (e ∷ es) =
        (meaning hash_text filterer job.handler job.event ≡ ok e) × Mean jobs es
    Mean _ _ = ⊥

    abbrev pub run : List (EventJob Handler) → Db → Db
    run = run_jobs (λ h. call g hash_text h globals ctx)

    -- Over a database whose updates do not fail, with a store in the context and a filterer set,
    -- running jobs whose logs can be parsed does to the swaps table what their events say, time
    -- stamps apart.
    pub run-apply_events :
        (jobs : List (EventJob Handler)) (es : List SwapEvent) (db : Db)
        → Mean jobs es
        → map erase (l.swaps (run jobs db)) ≡ apply_events es (map erase (l.swaps db))
    unfolding run_jobs apply_events
    run-apply_events [] [] db m = refl
    run-apply_events [] (e ∷ es) db m = absurd m
    run-apply_events (job ∷ jobs) [] db m = absurd m
    run-apply_events (job ∷ jobs) (e ∷ es) db m =
        let (t, written) =
          subst (λ r. Applies r db (call g hash_text job.handler globals ctx job.event db)) m.0
            (call-Applies job.handler job.event db) in
        run-apply_events jobs es _ m.1
        ∙ ap (apply_events es) (ap (map erase) written ∙ erase-update e t (l.swaps db))

    -- Over a database whose updates do not fail, with a store in the context and a filterer set:
    -- two runs of jobs whose logs can be parsed and mean the same events, in any two orders, leave
    -- the same swaps but for the time stamps, if events of one kind for one swap are equal.
    pub run-perm :
        (jobs jobs' : List (EventJob Handler)) (es es' : List SwapEvent) (db : Db)
        → Mean jobs es
        → Mean jobs' es'
        → Perm es es'
        → Agree es
        → map erase (l.swaps (run jobs db)) ≡ map erase (l.swaps (run jobs' db))
    run-perm jobs jobs' es es' db m m' p a =
        run-apply_events jobs es db m
        ∙ apply_events-perm es es' (map erase (l.swaps db)) p a
        ∙ sym (run-apply_events jobs' es' db m')
