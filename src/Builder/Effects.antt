-- ===== src/Builder/Effects.antt =====
-- cmd/builder/builder.go: the handlers of both packages on one database. What the jobs of a watcher
-- mean for the swaps table.
use garden_evm_watcher.Common.{
  ◌≡◌, ◌≢◌, refl, sym, ap, ◌∙◌, subst, Bytes, List, [], ◌∷◌, map, Option, none, some, Outcome, ok,
  err, panic, Exec,
}
use mathlib.Core.List.{filter_map, filter_map-cons-some, filter_map-cons-none}
use garden_evm_watcher.Model.Rows.{Swap}
use garden_evm_watcher.Ethereum.{Hash, Log}
use garden_evm_watcher.Watcher.Types.{EventJob}
use garden_evm_watcher.Watcher.Worker.{run_jobs}
use garden_evm_watcher.Store.Gorm.{Gorm, IsLawful}
use garden_evm_watcher.Store.Methods.{Store, Context, store_from_context}
use garden_evm_watcher.Store.Update.{IsReliable}
use garden_evm_watcher.Handlers.Htlc
use garden_evm_watcher.Handlers.Htlc.{Filterer}
use garden_evm_watcher.Handlers.Htlc.Events.{
  SwapEvent, meaning, Handles, updates, unreadable, breaks, call-Handles,
}
use garden_evm_watcher.Handlers.Htlc.Order.{erase, apply_to_row, apply_events}
use garden_evm_watcher.Handlers.Htlc.Workers.{Applies, call-Applies, erase-update}
use garden_evm_watcher.Handlers.Orderbook
use garden_evm_watcher.Handlers.Orderbook.{EvmOrder}
use garden_evm_watcher.Handlers.Orderbook.Swaps.{call-keeps}
use garden_evm_watcher.Builder.{Handler, Globals, of_htlc, of_orderbook}

module _ {Handle Db : Type 0} (g : Gorm Handle Db) (hash_text : Hash → Bytes)
    (unpack : Bytes → Outcome EvmOrder) where
  -- A call of a handler of either package.
  abbrev pub call_handler : Globals → Context Handle → Handler → Log → Exec Db (Unit {0})
  call_handler globals ctx (of_htlc h) = Htlc.call g hash_text h globals.htlc ctx
  call_handler globals ctx (of_orderbook h) = Orderbook.call g unpack h ctx

-- The change of the swaps that a job asks for. A log that cannot be read asks for none, and neither
-- does one of the order book.
abbrev pub if_read : Outcome SwapEvent → Option SwapEvent
if_read (ok e) = some e
if_read (err x) = none
if_read (panic p) = none

module _ (hash_text : Hash → Bytes) (filterer : Filterer) where
  abbrev pub event_by : Handler → Log → Option SwapEvent
  event_by (of_htlc h) log = if_read (meaning hash_text filterer h log)
  event_by (of_orderbook h) log = none

  abbrev pub event_of : EventJob Handler → Option SwapEvent
  event_of job = event_by job.handler job.event

  abbrev pub events_of : List (EventJob Handler) → List SwapEvent
  events_of = filter_map event_of

-- What becomes of the rows, time stamps apart, when a job asks for a change or for none.
data Effect (rows rows' : List Swap) : Option SwapEvent → Type 0 where
  changes :
      (e : SwapEvent)
      → map erase rows' ≡ map (apply_to_row e) (map erase rows)
      → Effect rows rows' (some e)
  keeps : rows' ≡ rows → Effect rows rows' none

module _ {Handle Db : Type 0} (g : Gorm Handle Db) (l : IsLawful g) (reliable : IsReliable g l)
    (hash_text : Hash → Bytes) (unpack : Bytes → Outcome EvmOrder) (globals : Globals)
    (ctx : Context Handle) (store : Store Handle) (filterer : Filterer)
    (has_store : store_from_context ctx ≡ ok store)
    (has_filterer : globals.htlc.garden_htlc_event_filter ≡ some filterer) where
  unread :
      (r : Outcome SwapEvent) (db : Db) (out : Outcome (Unit {0}) × Db)
      → Handles hash_text g l store r db out
      → ((e : SwapEvent) → r ≢ ok e)
      → out.1 ≡ db
  unread r db out (updates e readable _) h = absurd (h e readable)
  unread r db out (unreadable x _ same) h = ap (λ p. p.1) same
  unread r db out (breaks p _ same) h = ap (λ p. p.1) same

  htlc-Effect :
      (h : Htlc.Handler) (log : Log) (db : Db) (r : Outcome SwapEvent)
      → meaning hash_text filterer h log ≡ r
      → Effect
          (l.swaps db)
          (l.swaps (Htlc.call g hash_text h globals.htlc ctx log db).1)
          (if_read r)
  htlc-Effect h log db (ok e) eq =
      let (t, written) =
        subst
          (λ r.
            Applies g l reliable hash_text r db (Htlc.call g hash_text h globals.htlc ctx log db))
          eq
          (call-Applies g l reliable hash_text globals.htlc ctx store filterer has_store
            has_filterer h log db) in
      changes e (ap (map erase) written ∙ erase-update e t (l.swaps db))
  htlc-Effect h log db (err x) eq = keeps (
      ap l.swaps (
        unread _ db _
          (call-Handles hash_text g l globals.htlc ctx store filterer has_store has_filterer h log
            db)
          (λ e readable. cc (eq, readable))))
  htlc-Effect h log db (panic p) eq = keeps (
      ap l.swaps (
        unread _ db _
          (call-Handles hash_text g l globals.htlc ctx store filterer has_store has_filterer h log
            db)
          (λ e readable. cc (eq, readable))))

  handler-Effect :
      (h : Handler) (log : Log) (db : Db)
      → Effect
          (l.swaps db)
          (l.swaps (call_handler g hash_text unpack globals ctx h log db).1)
          (event_by hash_text filterer h log)
  handler-Effect (of_htlc h) log db = htlc-Effect h log db _ refl
  handler-Effect (of_orderbook h) log db = keeps (call-keeps g l unpack h ctx log db)

  abbrev events : List (EventJob Handler) → List SwapEvent
  events = events_of hash_text filterer

  Effect-apply :
      (job : EventJob Handler) (jobs : List (EventJob Handler)) (rows rows' end : List Swap)
      (o : Option SwapEvent)
      → event_of hash_text filterer job ≡ o
      → Effect rows rows' o
      → map erase end ≡ apply_events (events jobs) (map erase rows')
      → map erase end ≡ apply_events (events (job ∷ jobs)) (map erase rows)
  unfolding apply_events
  Effect-apply job jobs rows rows' end _ eq (changes e written) h =
      h
      ∙ ap (apply_events (events jobs)) written
      ∙ ap (λ es. apply_events es (map erase rows))
          (sym (filter_map-cons-some (event_of hash_text filterer) job jobs eq))
  Effect-apply job jobs rows rows' end _ eq (keeps same) h =
      h
      ∙ ap (λ r. apply_events (events jobs) (map erase r)) same
      ∙ ap (λ es. apply_events es (map erase rows))
          (sym (filter_map-cons-none (event_of hash_text filterer) job jobs eq))

  -- Over a database whose updates do not fail, with a store in the context and a filterer set: any
  -- jobs of both packages, in the order in which they run and however they end, do to the swaps
  -- what the HTLC events that can be read say, time stamps apart; jobs of the order book and
  -- unreadable logs change no swap.
  pub run_jobs-apply_events :
      (jobs : List (EventJob Handler)) (db : Db)
      → map erase (l.swaps (run_jobs (call_handler g hash_text unpack globals ctx) jobs db))
        ≡ apply_events (events jobs) (map erase (l.swaps db))
  unfolding run_jobs apply_events filter_map
  run_jobs-apply_events [] db = refl
  run_jobs-apply_events (job ∷ jobs) db =
      Effect-apply job jobs (l.swaps db) _ _ _ refl (handler-Effect job.handler job.event db)
        (run_jobs-apply_events jobs _)
