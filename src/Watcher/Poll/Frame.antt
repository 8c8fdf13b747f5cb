-- ===== src/Watcher/Poll/Frame.antt =====
-- What a poll leaves alone.
use garden_evm_watcher.Common.{
  pos_part, Dict, ◌∙◌, arith, ℕ, ◌≡◌, refl, List, Option, none, some, Outcome, ok, err, panic, view,
  returned, failed, crashed, Option-cases, inl, inr,
}
use garden_evm_watcher.Ethereum.{EthClient, Address, Hash, Log}
use garden_evm_watcher.Watcher.Types.{EventJob, Traffic, Watcher}
use garden_evm_watcher.Watcher.Dispatch.{Moment, dispatch, try_send, receive}
use garden_evm_watcher.Watcher.Dispatch.Capacity.{dispatch-keeps}
use garden_evm_watcher.Watcher.Poll.{
  block_range, filter_query, advance, process_all_contract_events, poll_client, poll_with,
  poll_events,
}

module _ {H : Type 0} where
  -- `v` differs from `w` in the current block and the traffic at most.
  pub record SameSetup (w v : Watcher H) : Type 0 where
    pub config : v.config ≡ w.config
    pub addresses : v.addresses ≡ w.addresses
    pub topics : v.topics ≡ w.topics
    pub address_to_handlers : v.address_to_handlers ≡ w.address_to_handlers
    pub quit : v.quit ≡ w.quit
    pub watchers : v.watchers ≡ w.watchers
    pub workers : v.workers ≡ w.workers
    pub closed : v.traffic.closed ≡ w.traffic.closed

  try_send-closed :
      (size : ℕ) (m : Moment) (job : EventJob H) (q : Traffic H)
      → (try_send size m job (receive m.receives q)).1.closed ≡ q.closed
  unfolding try_send receive
  try_send-closed size m job q = ground arith

  dispatch-closed :
      (size : ℕ) (table : Dict Address (Dict Hash H)) (logs : List Log) (ms : List Moment)
      (q : Traffic H)
      → (dispatch size table logs ms q).1.closed ≡ q.closed
  dispatch-closed size table logs ms q =
      dispatch-keeps (λ r. r.closed ≡ q.closed) size (λ m job r h. try_send-closed size m job r ∙ h)
        table logs ms q refl

  SameSetup-refl : (w : Watcher H) → SameSetup w w
  SameSetup-refl w = record {
    config = refl;
    addresses = refl;
    topics = refl;
    address_to_handlers = refl;
    quit = refl;
    watchers = refl;
    workers = refl;
    closed = refl;
  }

  advance-SameSetup :
      (w : Watcher H) (to_block : ℕ) (p : Outcome (Unit {0}) × Watcher H)
      → SameSetup w p.1
      → SameSetup w (advance to_block p).1
  advance-SameSetup w to_block (ok tt, v) s = record {
    config = s.config;
    addresses = s.addresses;
    topics = s.topics;
    address_to_handlers = s.address_to_handlers;
    quit = s.quit;
    watchers = s.watchers;
    workers = s.workers;
    closed = s.closed;
  }
  advance-SameSetup w to_block (err e, v) s = s
  advance-SameSetup w to_block (panic x, v) s = s

  process-SameSetup :
      (client : EthClient) (t : ℕ) (ms : List Moment) (f to_block : ℕ) (w : Watcher H)
      → SameSetup w (process_all_contract_events client t ms f to_block w).1
  unfolding process_all_contract_events
  process-SameSetup client t ms f to_block w =
      elim (view (client.filter_logs t (filter_query w f to_block))) [
        | failed e eq ↦ rw (eq, process_all_contract_events) (SameSetup-refl w)
        | crashed p eq ↦ rw (eq, process_all_contract_events) (SameSetup-refl w)
        | returned logs eq ↦
            rw (eq, process_all_contract_events)
              (record {
                config = refl;
                addresses = refl;
                topics = refl;
                address_to_handlers = refl;
                quit = refl;
                watchers = refl;
                workers = refl;
                closed =
                    dispatch-closed (pos_part w.config.queue_size) w.address_to_handlers logs ms
                      w.traffic;
              })
      ]

  poll_client-SameSetup :
      (client : EthClient) (t : ℕ) (ms : List Moment) (w : Watcher H)
      → SameSetup w (poll_client client t ms w).1
  unfolding poll_client
  poll_client-SameSetup client t ms w = elim (view (client.block_number t)) [
    | failed e eq ↦ rw (poll_client, eq) (SameSetup-refl w)
    | crashed p eq ↦ rw (poll_client, eq) (SameSetup-refl w)
    | returned latest eq ↦
        elim (Option-cases (block_range w.current_block latest w.config.max_block_span)) [
          | inl none_new ↦ rw (poll_client, eq, none_new) (SameSetup-refl w)
          | inr ((f, to_block), range) ↦
              rw (poll_client, eq, range)
                (advance-SameSetup w to_block _ (process-SameSetup client t ms f to_block w))
        ]
  ]

  poll_with-SameSetup :
      (client : Option EthClient) (t : ℕ) (ms : List Moment) (w : Watcher H)
      → SameSetup w (poll_with client t ms w).1
  unfolding poll_with
  poll_with-SameSetup none t ms w = SameSetup-refl w
  poll_with-SameSetup (some client) t ms w = poll_client-SameSetup client t ms w

  -- A poll changes nothing of the watcher but its current block and its traffic, and neither opens
  -- nor closes the channel.
  pub poll_events-SameSetup :
      (t : ℕ) (ms : List Moment) (w : Watcher H) → SameSetup w (poll_events t ms w).1
  unfolding poll_events
  poll_events-SameSetup t ms w = poll_with-SameSetup w.config.eth_client t ms w
