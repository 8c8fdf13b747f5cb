-- ===== src/Watcher/Dispatch/Capacity.antt =====
-- The capacity of the job queue.
use garden_evm_watcher.Common.{
  ℕ, suc, ◌+◌, ◌≤◌, ◌≡◌, refl, ◌∙◌, List, [], ◌∷◌, Dict, Outcome, ok, err, panic, arith, length,
  drop, length-append, length-drop, found_view, nothing, found, failed, crashed,
}
use garden_evm_watcher.Ethereum.{Address, Hash, Log}
use garden_evm_watcher.Watcher.Types.{EventJob, Traffic}
use garden_evm_watcher.Watcher.Dispatch.{
  Moment, now, later, receive, try_send, find_job, and_then, dispatch,
}
use garden_evm_watcher.Watcher.Dispatch.Accounting.{job_list}

module _ {H : Type 0} where
  module _ {ℓ} (P : Traffic H → Type ℓ) (size : ℕ)
      (keep : (m : Moment) (job : EventJob H) (q : Traffic H)
        → P q
        → P (try_send size m job (receive m.receives q)).1) where
    and_then-keeps :
        (k : Traffic H → Outcome (Unit {0}) × Traffic H)
        → ((r : Traffic H) → P r → P (k r).1)
        → (s : Outcome (Unit {0}) × Traffic H) → P s.1
        → P (and_then s k).1
    and_then-keeps k rest (ok tt, q) h = rest q h
    and_then-keeps k rest (err e, q) h = h
    and_then-keeps k rest (panic p, q) h = h

    -- What each receive-and-send keeps, the whole pass keeps.
    pub dispatch-keeps :
        (table : Dict Address (Dict Hash H)) (logs : List Log) (ms : List Moment) (q : Traffic H)
        → P q
        → P (dispatch size table logs ms q).1
    unfolding dispatch
    dispatch-keeps table [] ms q h = h
    dispatch-keeps table (log ∷ logs) ms q h = elim (found_view (find_job table log)) [
      | nothing eq ↦ rw (eq, dispatch) (dispatch-keeps table logs ms q h)
      | found job eq ↦
          rw (eq, dispatch)
            (and_then-keeps (dispatch size table logs (later ms))
              (λ r. dispatch-keeps table logs (later ms) r) _ (keep (now ms) job q h))
      | failed e eq ↦ rw (eq, dispatch) h
      | crashed p eq ↦ rw (eq, dispatch) h
    ]

  try_send_bounded :
      (size : ℕ) (m : Moment) (job : EventJob H) (q : Traffic H)
      → length q.queue ≤ size
      → length (try_send size m job (receive m.receives q)).1.queue ≤ size
  unfolding try_send receive
  try_send_bounded size m job q h =
      ground
        (arith, length-drop m.receives q.queue, length-append (drop m.receives q.queue) (job ∷ []))

  try_send_room :
      (size n : ℕ) (m : Moment) (job : EventJob H) (q : Traffic H)
      → length q.queue + suc n ≤ size
      → let r = (try_send size m job (receive m.receives q)).1 in
        (length r.queue + n ≤ size) × (r.dropped ≡ q.dropped)
  unfolding try_send receive
  try_send_room size n m job q h =
      ground
        (arith, length-drop m.receives q.queue, length-append (drop m.receives q.queue) (job ∷ []))

  and_then-no_loss :
      (size n : ℕ) (q : Traffic H) (k : Traffic H → Outcome (Unit {0}) × Traffic H)
      → ((r : Traffic H) → length r.queue + n ≤ size → (k r).1.dropped ≡ r.dropped)
      → (s : Outcome (Unit {0}) × Traffic H)
      → (length s.1.queue + n ≤ size) × (s.1.dropped ≡ q.dropped)
      → (and_then s k).1.dropped ≡ q.dropped
  and_then-no_loss size n q k rest (ok tt, r) (room, same) = rest r room ∙ same
  and_then-no_loss size n q k rest (err e, r) (room, same) = same
  and_then-no_loss size n q k rest (panic p, r) (room, same) = same

  -- If the channel has room for every job of the logs, the pass drops no event, whatever the
  -- workers and the context do meanwhile.
  pub dispatch_no_loss :
      (size : ℕ) (table : Dict Address (Dict Hash H)) (logs : List Log) (ms : List Moment)
      (q : Traffic H)
      → length q.queue + length (job_list table logs) ≤ size
      → (dispatch size table logs ms q).1.dropped ≡ q.dropped
  unfolding dispatch
  dispatch_no_loss size table [] ms q h = refl
  dispatch_no_loss size table (log ∷ logs) ms q h = elim (found_view (find_job table log)) [
    | nothing eq ↦
        rw (eq, dispatch) (dispatch_no_loss size table logs ms q (rw (eq, job_list) at h))
    | found job eq ↦
        rw (eq, dispatch)
          (and_then-no_loss size (length (job_list table logs)) q
            (dispatch size table logs (later ms))
            (λ r. dispatch_no_loss size table logs (later ms) r) _
            (try_send_room size _ (now ms) job q (rw (eq, job_list) at h)))
    | failed e eq ↦ rw (eq, dispatch) refl
    | crashed p eq ↦ rw (eq, dispatch) refl
  ]
