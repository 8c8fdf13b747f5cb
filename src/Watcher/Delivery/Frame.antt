-- ===== src/Watcher/Delivery/Frame.antt =====
-- What the steps of a running watcher leave alone.
use garden_evm_watcher.Common.{
  ℕ, ◌≡◌, refl, sym, ◌∙◌, List, [], ◌++◌, append_assoc, append-nil, Dict, Option, none, some,
  Option-cases, inl, inr, pos_part, take, Outcome, ok, err, panic, view, returned, failed, crashed,
  canceled, arith,
}
use garden_evm_watcher.Ethereum.{Address, Hash, Log, EthClient}
use garden_evm_watcher.Watcher.Types.{Watcher, Traffic, EventJob}
use garden_evm_watcher.Watcher.Dispatch.{Moment, receive, try_send, dispatch}
use garden_evm_watcher.Watcher.Dispatch.Capacity.{dispatch-keeps}
use garden_evm_watcher.Watcher.Poll.{
  block_range, filter_query, advance, process_all_contract_events, poll_client, poll_with,
  poll_events,
}
use garden_evm_watcher.Watcher.Poll.Frame.{poll_events-SameSetup}
use garden_evm_watcher.Watcher.Loop.{
  LoopState, after_poll, leave, close_queue, loop_step, workers_left, stop_begin, stop_end,
}
use garden_evm_watcher.Watcher.System.{
  System, Step, cancels, polls, polls_in_vain, sees_cancel, sees_quit, waits_for_workers,
  worker_receives, worker_sees_cancel, worker_sees_end, worker_gives_up, calls_stop, stop_returns,
}

module _ {H : Type 0} where
  -- `v` has what `w` was built with, and its workers have received `more` jobs since.
  pub record Follows (w v : Watcher H) : Type 0 where
    pub config : v.config ≡ w.config
    pub addresses : v.addresses ≡ w.addresses
    pub topics : v.topics ≡ w.topics
    pub table : v.address_to_handlers ≡ w.address_to_handlers
    pub more : List (EventJob H)
    pub arrived : v.traffic.received ≡ w.traffic.received ++ more

  pub Follows-same :
      (w v : Watcher H)
      → (v.config ≡ w.config)
        × (v.addresses ≡ w.addresses)
        × (v.topics ≡ w.topics)
        × (v.address_to_handlers ≡ w.address_to_handlers)
        × (v.traffic.received ≡ w.traffic.received)
      → Follows w v
  Follows-same w v (c, a, t, h, r) = record {
    config = c;
    addresses = a;
    topics = t;
    table = h;
    more = [];
    arrived = r ∙ sym (append-nil _);
  }

  pub Follows-trans : (u v w : Watcher H) → Follows u v → Follows v w → Follows u w
  Follows-trans u v w f g = record {
    config = g.config ∙ f.config;
    addresses = g.addresses ∙ f.addresses;
    topics = g.topics ∙ f.topics;
    table = g.table ∙ f.table;
    more = f.more ++ g.more;
    arrived = g.arrived ∙ rw f.arrived (append_assoc u.traffic.received f.more g.more);
  }

  -- Between two states of the channel jobs were received.
  abbrev Later : Traffic H → Traffic H → Type 0
  Later q r = (more : List (EventJob H)) × (r.received ≡ q.received ++ more)

  try_send-received :
      (size : ℕ) (m : Moment) (job : EventJob H) (r : Traffic H)
      → (try_send size m job (receive m.receives r)).1.received
        ≡ r.received ++ take m.receives r.queue
  unfolding try_send receive
  try_send-received size m job r = ground arith

  try_send-Later :
      (q : Traffic H) (size : ℕ) (m : Moment) (job : EventJob H) (r : Traffic H)
      → Later q r
      → Later q (try_send size m job (receive m.receives r)).1
  try_send-Later q size m job r (more, e) = (
    more ++ take m.receives r.queue,
    try_send-received size m job r ∙ rw e (append_assoc q.received more (take m.receives r.queue)),
  )

  dispatch-Later :
      (size : ℕ) (table : Dict Address (Dict Hash H)) (logs : List Log) (ms : List Moment)
      (q : Traffic H)
      → Later q (dispatch size table logs ms q).1
  dispatch-Later size table logs ms q =
      dispatch-keeps (Later q) size (try_send-Later q size) table logs ms q
        ([], sym (append-nil q.received))

  advance-Later :
      (q : Traffic H) (to_block : ℕ) (p : Outcome (Unit {0}) × Watcher H)
      → Later q p.1.traffic
      → Later q (advance to_block p).1.traffic
  advance-Later q to_block (ok u, w) h = h
  advance-Later q to_block (err e, w) h = h
  advance-Later q to_block (panic x, w) h = h

  process-Later :
      (client : EthClient) (t : ℕ) (ms : List Moment) (f l : ℕ) (w : Watcher H)
      → Later w.traffic (process_all_contract_events client t ms f l w).1.traffic
  unfolding process_all_contract_events
  process-Later client t ms f l w = elim (view (client.filter_logs t (filter_query w f l))) [
    | failed e eq ↦ rw (eq, process_all_contract_events) ([], sym (append-nil _))
    | crashed p eq ↦ rw (eq, process_all_contract_events) ([], sym (append-nil _))
    | returned logs eq ↦
        rw (eq, process_all_contract_events)
          (dispatch-Later (pos_part w.config.queue_size) w.address_to_handlers logs ms w.traffic)
  ]

  poll_client-Later :
      (client : EthClient) (t : ℕ) (ms : List Moment) (w : Watcher H)
      → Later w.traffic (poll_client client t ms w).1.traffic
  unfolding poll_client
  poll_client-Later client t ms w = elim (view (client.block_number t)) [
    | failed e eq ↦ rw (poll_client, eq) ([], sym (append-nil _))
    | crashed p eq ↦ rw (poll_client, eq) ([], sym (append-nil _))
    | returned latest eq ↦
        elim (Option-cases (block_range w.current_block latest w.config.max_block_span)) [
          | inl none_new ↦ rw (poll_client, eq, none_new) ([], sym (append-nil _))
          | inr ((f, l), range) ↦
              rw (poll_client, eq, range)
                (advance-Later w.traffic l _ (process-Later client t ms f l w))
        ]
  ]

  poll_with-Later :
      (client : Option EthClient) (t : ℕ) (ms : List Moment) (w : Watcher H)
      → Later w.traffic (poll_with client t ms w).1.traffic
  unfolding poll_with
  poll_with-Later none t ms w = ([], sym (append-nil _))
  poll_with-Later (some client) t ms w = poll_client-Later client t ms w

  poll_events-Follows :
      (t : ℕ) (ms : List Moment) (w : Watcher H) → Follows w (poll_events t ms w).1
  unfolding poll_events
  poll_events-Follows t ms w =
      let s = poll_events-SameSetup t ms w in
      let (more, e) = poll_with-Later w.config.eth_client t ms w in
      record {
        config = s.config;
        addresses = s.addresses;
        topics = s.topics;
        table = s.address_to_handlers;
        more = more;
        arrived = e;
      }

  after_poll-Follows :
      (w : Watcher H) (p : Outcome (Unit {0}) × Watcher H)
      → Follows w p.1
      → Follows w (after_poll p).1
  unfolding after_poll leave
  after_poll-Follows w (ok u, v) f = f
  after_poll-Follows w (err canceled, v) f =
      Follows-trans w v _ f (Follows-same v _ (refl, refl, refl, refl, refl))
  after_poll-Follows w (err e, v) f = f
  after_poll-Follows w (panic p, v) f = f

  close_queue-Follows : (w : Watcher H) → Follows w (close_queue w).1
  unfolding close_queue
  close_queue-Follows w = Follows-same w _ (ground arith)

  workers_left-Follows :
      (w : Watcher H) (r : LoopState × Watcher H) → workers_left w ≡ some r → Follows w r.1
  unfolding workers_left leave
  workers_left-Follows w r e = Follows-same w r.1 (ground arith)

  stop_begin-Follows : (w : Watcher H) → Follows w (stop_begin w).1
  unfolding stop_begin
  stop_begin-Follows w = Follows-same w _ (ground arith)

  stop_end-Follows :
      (w : Watcher H) (r : Outcome (Unit {0}) × Watcher H) → stop_end w ≡ some r → Follows w r.1
  unfolding stop_end
  stop_end-Follows w r e = Follows-same w r.1 (ground arith)

  receive-Follows : (n : ℕ) (w : Watcher H) → Follows w (record w { traffic = receive n w.traffic })
  unfolding receive
  receive-Follows n w = record {
    config = refl;
    addresses = refl;
    topics = refl;
    table = refl;
    more = take n w.traffic.queue;
    arrived = refl;
  }

  -- Every step keeps what the watcher was built with, and takes no job back from the workers.
  pub Step-Follows : (s t : System H) → Step s t → Follows s.watcher t.watcher
  unfolding loop_step leave
  Step-Follows s _ cancels = Follows-same s.watcher _ (refl, refl, refl, refl, refl)
  Step-Follows s _ (polls_in_vain x e d) =
      after_poll-Follows s.watcher (err _, s.watcher)
        (Follows-same s.watcher _ (refl, refl, refl, refl, refl))
  Step-Follows s _ (polls t ms e early) =
      after_poll-Follows s.watcher _ (poll_events-Follows t ms s.watcher)
  Step-Follows s _ (sees_cancel e d) = close_queue-Follows s.watcher
  Step-Follows s _ (sees_quit e d) = Follows-same s.watcher _ (refl, refl, refl, refl, refl)
  Step-Follows s _ (waits_for_workers r e d) = workers_left-Follows s.watcher r d
  Step-Follows s _ (worker_receives n busy) = receive-Follows n s.watcher
  Step-Follows s _ (worker_sees_cancel e) = Follows-same s.watcher _ (refl, refl, refl, refl, refl)
  Step-Follows s _ (worker_sees_end e d) = Follows-same s.watcher _ (refl, refl, refl, refl, refl)
  Step-Follows s _ worker_gives_up = Follows-same s.watcher _ (refl, refl, refl, refl, refl)
  Step-Follows s _ (calls_stop e) = stop_begin-Follows s.watcher
  Step-Follows s _ (stop_returns r e d) = stop_end-Follows s.watcher r d
