-- ===== src/Watcher/Dispatch/Faults.antt =====
-- When a pass over the logs panics, and when it ends without an error.
use garden_evm_watcher.Common.{
  ℕ, ◌≡◌, ◌≢◌, refl, false, List, [], ◌∷◌, some, Dict, lookup, bytes_comparable, Outcome, ok, err,
  panic, Panic, Error, arith, found_view, nothing, found, failed, crashed, All, index_out_of_range,
}
use garden_evm_watcher.Ethereum.{Address, Hash, Log}
use garden_evm_watcher.Watcher.Types.{EventJob, Traffic}
use garden_evm_watcher.Watcher.Dispatch.{
  Moment, now, later, All-later, receive, try_send, find_job, and_then, dispatch,
}

All-now : (ms : List Moment) → All (λ m. m.done ≡ false) ms → (now ms).done ≡ false
All-now [] h = refl
All-now (m ∷ ms) h = h.0

module _ {H : Type 0} where
  pub find_job-panic :
      (table : Dict Address (Dict Hash H)) (log : Log) (p : Panic)
      → find_job table log ≡ panic p
      → log.topics ≡ []
  unfolding find_job
  find_job-panic table log p e = ground arith

  pub find_job-ne-err :
      (table : Dict Address (Dict Hash H)) (log : Log) (e : Error) → find_job table log ≢ err e
  unfolding find_job
  find_job-ne-err table log e h = ground arith

  find_job-bare :
      (table : Dict Address (Dict Hash H)) (handlers : Dict Hash H) (log : Log)
      → lookup log.address table ≡ some handlers
      → log.topics ≡ []
      → find_job table log ≡ panic index_out_of_range
  unfolding find_job
  find_job-bare table handlers log watched bare = ground arith

  try_send-ok :
      (size : ℕ) (m : Moment) (job : EventJob H) (q : Traffic H)
      → m.done ≡ false
      → q.closed ≡ false
      → let s = try_send size m job (receive m.receives q) in (s.0 ≡ ok tt) × (s.1.closed ≡ false)
  unfolding try_send receive
  try_send-ok size m job q h o = ground arith

  and_then-ok :
      (k : Traffic H → Outcome (Unit {0}) × Traffic H)
      → ((r : Traffic H) → r.closed ≡ false → (k r).0 ≡ ok tt)
      → (s : Outcome (Unit {0}) × Traffic H) → (s.0 ≡ ok tt) × (s.1.closed ≡ false)
      → (and_then s k).0 ≡ ok tt
  and_then-ok k rest (ok tt, q) h = rest q h.1
  and_then-ok k rest (err e, q) h = cc (h.0)
  and_then-ok k rest (panic p, q) h = cc (h.0)

  -- While the context is not done and the channel is open, a pass over logs that all have topics ends without an error.
  pub dispatch-ok :
      (size : ℕ) (table : Dict Address (Dict Hash H)) (logs : List Log) (ms : List Moment)
      (q : Traffic H)
      → All (λ l. l.topics ≢ []) logs
      → All (λ m. m.done ≡ false) ms
      → q.closed ≡ false
      → (dispatch size table logs ms q).0 ≡ ok tt
  unfolding dispatch
  dispatch-ok size table [] ms q h d o = refl
  dispatch-ok size table (log ∷ logs) ms q h d o = elim (found_view (find_job table log)) [
    | nothing eq ↦ rw (eq, dispatch) (dispatch-ok size table logs ms q h.1 d o)
    | found job eq ↦
        rw (eq, dispatch)
          (and_then-ok (dispatch size table logs (later ms))
            (λ r. dispatch-ok size table logs (later ms) r h.1 (All-later ms d)) _
            (try_send-ok size (now ms) job q (All-now ms d) o))
    | failed e eq ↦ absurd (find_job-ne-err table log e eq)
    | crashed p eq ↦ absurd (h.0 (find_job-panic table log p eq))
  ]

  and_then-ne-panic :
      (k : Traffic H → Outcome (Unit {0}) × Traffic H) (p : Panic)
      → ((r : Traffic H) → r.closed ≡ false → (k r).0 ≢ panic p)
      → (s : Outcome (Unit {0}) × Traffic H) → (s.0 ≢ panic p) × (s.1.closed ≡ false)
      → (and_then s k).0 ≢ panic p
  and_then-ne-panic k p rest (ok tt, q) h = rest q h.1
  and_then-ne-panic k p rest (err e, q) h = h.0
  and_then-ne-panic k p rest (panic x, q) h = h.0

  try_send-ne-panic :
      (size : ℕ) (m : Moment) (job : EventJob H) (q : Traffic H) (p : Panic)
      → q.closed ≡ false
      → let s = try_send size m job (receive m.receives q) in (s.0 ≢ panic p) × (s.1.closed ≡ false)
  unfolding try_send receive
  try_send-ne-panic size m job q p o = ground arith

  -- Over logs that all have topics, and with the channel open, the pass does not panic, whatever
  -- the other goroutines do.
  pub dispatch-ne-panic :
      (size : ℕ) (table : Dict Address (Dict Hash H)) (logs : List Log) (ms : List Moment)
      (q : Traffic H) (p : Panic)
      → All (λ l. l.topics ≢ []) logs
      → q.closed ≡ false
      → (dispatch size table logs ms q).0 ≢ panic p
  unfolding dispatch
  dispatch-ne-panic size table [] ms q p h o = λ e. cc
  dispatch-ne-panic size table (log ∷ logs) ms q p h o = elim (found_view (find_job table log)) [
    | nothing eq ↦ rw (eq, dispatch) (dispatch-ne-panic size table logs ms q p h.1 o)
    | found job eq ↦
        rw (eq, dispatch)
          (and_then-ne-panic (dispatch size table logs (later ms)) p
            (λ r. dispatch-ne-panic size table logs (later ms) r p h.1) _
            (try_send-ne-panic size (now ms) job q p o))
    | failed e eq ↦ absurd (find_job-ne-err table log e eq)
    | crashed x eq ↦ absurd (h.0 (find_job-panic table log x eq))
  ]
