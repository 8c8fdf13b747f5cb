-- ===== src/Watcher/Poll/Errors.antt =====
-- A poll that ends with an error.
use garden_evm_watcher.Common.{
  ℕ, ◌≡◌, ◌≢◌, refl, List, [], ◌∷◌, Option-cases, inl, inr, pos_part, Outcome, ok, err, panic,
  Error, view, returned, failed, crashed, found_view, nothing, found, canceled, arith, Dict,
}
use garden_evm_watcher.Ethereum.{Address, Hash, Log, EthClient}
use garden_evm_watcher.Watcher.Types.{Watcher, Traffic, EventJob}
use garden_evm_watcher.Watcher.Dispatch.{Moment, try_send, dispatch, find_job, and_then, now, later}
use garden_evm_watcher.Watcher.Dispatch.Faults.{find_job-ne-err}
use garden_evm_watcher.Watcher.Poll.{
  block_range, filter_query, advance, with_traffic, process_all_contract_events, poll_client,
}

module _ {H : Type 0} where
  try_send-ne-err :
      (size : ℕ) (m : Moment) (job : EventJob H) (q : Traffic H) (e : Error)
      → e ≢ canceled
      → (try_send size m job q).0 ≢ err e
  unfolding try_send
  try_send-ne-err size m job q e other h = ground (arith, other)

  and_then-ne-err :
      (e : Error) (k : Traffic H → Outcome (Unit {0}) × Traffic H)
      → ((q : Traffic H) → (k q).0 ≢ err e)
      → (s : Outcome (Unit {0}) × Traffic H) → s.0 ≢ err e
      → (and_then s k).0 ≢ err e
  and_then-ne-err e k rest (ok u, q) h = rest q
  and_then-ne-err e k rest (err x, q) h = h
  and_then-ne-err e k rest (panic p, q) h = h

  -- The only error of a pass is context.Canceled.
  dispatch-ne-err :
      (size : ℕ) (table : Dict Address (Dict Hash H)) (logs : List Log) (ms : List Moment)
      (q : Traffic H) (e : Error)
      → e ≢ canceled
      → (dispatch size table logs ms q).0 ≢ err e
  unfolding dispatch
  dispatch-ne-err size table [] ms q e other = λ h. cc
  dispatch-ne-err size table (log ∷ logs) ms q e other = elim (found_view (find_job table log)) [
    | nothing eq ↦ rw (eq, dispatch) (dispatch-ne-err size table logs ms q e other)
    | found job eq ↦
        rw (eq, dispatch)
          (and_then-ne-err e (dispatch size table logs (later ms))
            (λ r. dispatch-ne-err size table logs (later ms) r e other) _
            (try_send-ne-err size (now ms) job _ e other))
    | failed x eq ↦ absurd (find_job-ne-err table log x eq)
    | crashed p eq ↦ rw (eq, dispatch) (λ h. cc)
  ]

  advance-unchanged :
      (w : Watcher H) (l : ℕ) (e : Error) (d : Outcome (Unit {0}) × Traffic H)
      → d.0 ≢ err e
      → (advance l (with_traffic w d)).0 ≡ err e
      → (advance l (with_traffic w d)).1 ≡ w
  advance-unchanged w l e (ok u, q) h eq = cc
  advance-unchanged w l e (err x, q) h eq = absurd (h eq)
  advance-unchanged w l e (panic p, q) h eq = cc

  process-unchanged :
      (client : EthClient) (t : ℕ) (ms : List Moment) (f l : ℕ) (w : Watcher H) (e : Error)
      → e ≢ canceled
      → (advance l (process_all_contract_events client t ms f l w)).0 ≡ err e
      → (advance l (process_all_contract_events client t ms f l w)).1 ≡ w
  unfolding process_all_contract_events
  process-unchanged client t ms f l w e other h =
      elim (view (client.filter_logs t (filter_query w f l))) [
        | failed x eq ↦ rw (eq, process_all_contract_events) refl
        | crashed p eq ↦ rw (eq, process_all_contract_events) refl
        | returned logs eq ↦
            rw (eq, process_all_contract_events)
              (advance-unchanged w l e _
                (dispatch-ne-err (pos_part w.config.queue_size) w.address_to_handlers logs ms
                  w.traffic e other)
                (rw (eq, process_all_contract_events) at h))
      ]

  -- A poll that ends with an error other than context.Canceled has changed nothing of the watcher:
  -- no job was sent or dropped and the current block is the same, so that the next poll asks for
  -- the same blocks.
  pub poll_client-unchanged :
      (client : EthClient) (t : ℕ) (ms : List Moment) (w : Watcher H) (e : Error)
      → e ≢ canceled
      → (poll_client client t ms w).0 ≡ err e
      → (poll_client client t ms w).1 ≡ w
  unfolding poll_client
  poll_client-unchanged client t ms w e other h = elim (view (client.block_number t)) [
    | failed x eq ↦ rw (poll_client, eq) refl
    | crashed p eq ↦ rw (poll_client, eq) refl
    | returned latest eq ↦
        elim (Option-cases (block_range w.current_block latest w.config.max_block_span)) [
          | inl none_new ↦ rw (poll_client, eq, none_new) refl
          | inr ((f, l), range) ↦
              rw (poll_client, eq, range)
                (process-unchanged client t ms f l w e other (rw (poll_client, eq, range) at h))
        ]
  ]
