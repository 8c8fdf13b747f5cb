-- ===== src/Watcher/Dispatch.antt =====
-- pkg/watcher/watcher.go: the loop of processAllContractEvents over the logs, and its `select` on
-- the job queue. What other goroutines do between two rounds is an argument, a list of moments.
pub mod Accounting
pub mod Capacity
pub mod Faults
pub mod Room
use garden_evm_watcher.Common.{
  ℕ, ◌+◌, Bool, true, false, ◌&&◌, ◌||◌, All, arith, ◌≡◌, if◌then◌else◌, ltb, List, [], ◌∷◌, ◌++◌,
  Option, none, some, Dict, lookup, bytes_comparable, Outcome, ok, err, panic, canceled,
  index_out_of_range, send_on_closed_channel, length, take, drop,
}
use garden_evm_watcher.Ethereum.{Address, Hash, Log}
use garden_evm_watcher.Watcher.Types.{EventJob, Traffic}

-- Before a `select` the workers have received `receives` more jobs, and the context is `done` or
-- not. Go chooses freely between two cases that are ready: `prefers_done` is its choice. A send on
-- a closed channel is ready, and panics.
pub record Moment : Type 0 where
  pub receives : ℕ
  pub done : Bool
  pub prefers_done : Bool

abbrev pub quiet : Moment
quiet = record { receives = 0; done = false; prefers_done = false }

abbrev pub now : List Moment → Moment
now [] = quiet
now (m ∷ ms) = m

-- A context that is done stays done; after the last moment the workers receive nothing.
abbrev pub later : List Moment → List Moment
later [] = []
later (m ∷ []) = record m { receives = 0 } ∷ []
later (m ∷ (n ∷ ms)) = record n { done = m.done || n.done } ∷ ms

abbrev pub any_done : List Moment → Bool
any_done [] = false
any_done (m ∷ ms) = m.done || any_done ms

pub All-later :
    (ms : List Moment) → All (λ m. m.done ≡ false) ms → All (λ m. m.done ≡ false) (later ms)
All-later [] a = tt
All-later (m ∷ []) a = a
All-later (m ∷ (n ∷ ms)) (d, (e, a)) = (ground (arith, d, e), a)

module _ {H : Type 0} where
  -- A receive takes the oldest jobs of the channel.
  unfoldable pub receive : ℕ → Traffic H → Traffic H
  receive n q = record q { queue = drop n q.queue; received = q.received ++ take n q.queue }

  -- select { case w.jobQueue <- job: case <-ctx.Done(): default: }
  unfoldable pub try_send : ℕ → Moment → EventJob H → Traffic H → Outcome (Unit {0}) × Traffic H
  try_send size m job q =
      if m.done && m.prefers_done
      then (err canceled, q)
      else if q.closed
      then (panic send_on_closed_channel, q)
      else if ltb (length q.queue) size
      then (ok tt, record q { queue = q.queue ++ job ∷ [] })
      else if m.done
      then (err canceled, q)
      else (ok tt, record q { dropped = q.dropped ++ job ∷ [] })

  -- w.addressToHandlers[log.Address], then handlers[log.Topics[0]]
  unfoldable pub find_job : Dict Address (Dict Hash H) → Log → Outcome (Option (EventJob H))
  find_job table log = elim (lookup log.address table) [
    | none ↦ ok none
    | some handlers ↦ elim log.topics [
      | [] ↦ panic index_out_of_range
      | topic ∷ _ ↦ elim (lookup topic handlers) [
        | none ↦ ok none
        | some handler ↦ ok (some (record { event = log; handler = handler }))
      ]
    ]
  ]

  abbrev pub and_then :
      Outcome (Unit {0}) × Traffic H
      → (Traffic H → Outcome (Unit {0}) × Traffic H)
      → Outcome (Unit {0}) × Traffic H
  and_then (ok u, q) k = k q
  and_then (err e, q) k = (err e, q)
  and_then (panic p, q) k = (panic p, q)

  -- for _, log := range logs
  unfoldable pub dispatch :
      ℕ
      → Dict Address (Dict Hash H)
      → List Log
      → List Moment
      → Traffic H
      → Outcome (Unit {0}) × Traffic H
  dispatch size table [] ms q = (ok tt, q)
  dispatch size table (log ∷ logs) ms q = elim (find_job table log) [
    | panic p ↦ (panic p, q)
    | err e ↦ (err e, q)
    | ok none ↦ dispatch size table logs ms q
    | ok (some job) ↦
        and_then (try_send size (now ms) job (receive (now ms).receives q))
          (dispatch size table logs (later ms))
  ]
