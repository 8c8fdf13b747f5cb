-- ===== src/Handlers/Tests/Swaps.antt =====
-- The HTLC handlers on concrete events.
use garden_evm_watcher.Common.{
  pos, ◌≡◌, refl, Bytes, ascii, List, [], ◌∷◌, map, none, some, Outcome, ok, err, panic, external,
  ℕ_discrete,
}
use mathlib.Core.List.{Mem, forall_mem-cons, not-mem-nil}
use mathlib.Core.List.Perm
use garden_evm_watcher.Ethereum.{Hash}
use garden_evm_watcher.Watcher.Types.{EventJob}
use garden_evm_watcher.Store.Memory.{
  memory, memory_laws, steady_memory, steady_memory_laws, steady_memory-IsReliable,
}
use garden_evm_watcher.Handlers.Htlc
use garden_evm_watcher.Handlers.Htlc.{Filterer}
use garden_evm_watcher.Handlers.Htlc.Events.{SwapEvent, meaning, Handles, call-Handles}
use garden_evm_watcher.Handlers.Htlc.Order.{erase, Agree, SameSlot}
use garden_evm_watcher.Handlers.Htlc.Workers.{run, run-perm}
use garden_evm_watcher.Handlers.Hex.{encode_to_string}
use garden_evm_watcher.Handlers.Tests.{database, ctx, store, ctx_store, bare, log}
use garden_evm_watcher.Store.Atomic.{IsAtomic}
use garden_evm_watcher.Handlers.Atomic.{htlc-IsAtomic}

-- The first topic of a log is its order ID here, the second one its secret.
abbrev first_topic : List Hash → Outcome Bytes
first_topic [] = err (external (ascii "no topic"))
first_topic (t ∷ ts) = ok t

abbrev filterer : Filterer
filterer = record {
  parse_initiated = λ log. elim (first_topic log.topics) [
    | ok t ↦ ok (record { order_id = t; amount = some (pos 5); raw = log })
    | err e ↦ err e
    | panic p ↦ panic p
  ];
  parse_redeemed = λ log. elim (first_topic log.topics) [
    | ok t ↦ ok (record { order_id = t; secret = log.payload; raw = log })
    | err e ↦ err e
    | panic p ↦ panic p
  ];
  parse_refunded = λ log. elim (first_topic log.topics) [
    | ok t ↦ ok (record { order_id = t; raw = log })
    | err e ↦ err e
    | panic p ↦ panic p
  ];
}

abbrev globals : Htlc.Globals
globals = record { garden_htlc_abi = none; garden_htlc_event_filter = some filterer }

abbrev hash_text : Hash → Bytes
hash_text h = h

call-Handles_example :
    Handles hash_text memory memory_laws store
      (meaning hash_text filterer Htlc.initiated log)
      database
      (Htlc.call memory hash_text Htlc.initiated globals ctx log database)
call-Handles_example =
    call-Handles hash_text memory memory_laws globals ctx store filterer ctx_store refl
      Htlc.initiated log database

abbrev initiation : EventJob Htlc.Handler
initiation = record { event = log; handler = Htlc.initiated }

abbrev redemption : EventJob Htlc.Handler
redemption = record { event = log; handler = Htlc.redeemed }

abbrev initiates_it : SwapEvent
initiates_it = SwapEvent.initiates (ascii "0102") (ascii "tx") (some (pos 5)) (some (pos 77))

abbrev redeems_it : SwapEvent
redeems_it = SwapEvent.redeems (ascii "0102") (ascii "tx") (ascii "secret") (some (pos 77))

SwapEvent_set : IsSet SwapEvent
SwapEvent_set = hlevel ℕ_discrete

-- An event is in the list of two.
one_of_two :
    {P : SwapEvent → Type 0}
    → ((e : SwapEvent) → IsProp (P e))
    → P initiates_it
    → P redeems_it
    → (e : SwapEvent) → Mem e (initiates_it ∷ redeems_it ∷ [])
    → P e
one_of_two prop p q =
    (forall_mem-cons prop).1 (p, (forall_mem-cons prop).1 (q, λ x m. absurd (not-mem-nil m)))

both-Agree : Agree (initiates_it ∷ redeems_it ∷ [])
both-Agree = record {
  agree = λ e f m n.
      one_of_two {P = λ e. SameSlot e f → e ≡ f} (λ e. hlevel SwapEvent_set)
        (one_of_two {P = λ f. SameSlot initiates_it f → initiates_it ≡ f}
          (λ f. hlevel SwapEvent_set) (λ s. refl) (λ s. absurd (cc s.0)) f n)
        (one_of_two {P = λ f. SameSlot redeems_it f → redeems_it ≡ f} (λ f. hlevel SwapEvent_set)
          (λ s. absurd (cc s.0)) (λ s. refl) f n)
        e m;
}

run-perm_example :
    map erase
      (run steady_memory steady_memory_laws steady_memory-IsReliable hash_text globals ctx store
        filterer ctx_store refl
        (initiation ∷ redemption ∷ [])
        database).swaps
    ≡ map erase
        (run steady_memory steady_memory_laws steady_memory-IsReliable hash_text globals ctx store
          filterer ctx_store refl
          (redemption ∷ initiation ∷ [])
          database).swaps
unfolding encode_to_string
run-perm_example =
    run-perm steady_memory steady_memory_laws steady_memory-IsReliable hash_text globals ctx store
      filterer ctx_store refl (initiation ∷ redemption ∷ []) (redemption ∷ initiation ∷ [])
      (initiates_it ∷ redeems_it ∷ []) (redeems_it ∷ initiates_it ∷ []) database (refl, (refl, tt))
      (refl, (refl, tt)) (Perm.swap redeems_it initiates_it []) both-Agree

htlc-IsAtomic_example :
    IsAtomic memory memory_laws database
      (Htlc.call memory hash_text Htlc.redeemed globals bare log database)
htlc-IsAtomic_example =
    htlc-IsAtomic memory memory_laws hash_text Htlc.redeemed globals bare log database
