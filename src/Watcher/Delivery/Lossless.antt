-- ===== src/Watcher/Delivery/Lossless.antt =====
-- A running watcher whose channel has room for every answer of the node: it can go on to the last
-- block without a loss.
use garden_evm_watcher.Common.{
  ℕ, zero, suc, ◌+◌, ◌*◌, ◌^◌, ◌≤◌, ◌<◌, ◌≡◌, ◌≢◌, refl, sym, ap, ◌∙◌, List, [], length, some,
  Outcome, ok, err, panic, canceled, arith, min, pos_part, view, returned, failed, crashed, Option,
  none, Exec,
}
use garden_evm_watcher.Ethereum.{Log, EthClient, IsFiltering}
use garden_evm_watcher.Watcher.Types.{WatcherConfig, Watcher, Traffic}
use garden_evm_watcher.Watcher.Dispatch.Accounting.{job_list}
use garden_evm_watcher.Watcher.Dispatch.Capacity.{dispatch_no_loss}
use garden_evm_watcher.Watcher.Build.Contracts.{IsBuiltFrom}
use garden_evm_watcher.Watcher.Poll.{
  block_range, filter_query, with_traffic, advance, process_all_contract_events, poll_client,
  poll_events, poll_events-client,
}
use garden_evm_watcher.Watcher.Loop.{selecting, after_poll, leave, loop_step, loop}
use garden_evm_watcher.Watcher.Loop.Catchup.{IsSteady, loop_catches_up}
use garden_evm_watcher.Watcher.System.Shutdown.{Reachable-IsSound}
use garden_evm_watcher.Watcher.Delivery.{
  Service, ServiceFrom, ServiceReachable, ServiceFrom-trans, IsRunning, opened, at_start,
}
use garden_evm_watcher.Watcher.Delivery.Frame.{Follows}
use garden_evm_watcher.Watcher.Delivery.Reached.{Reachable-Follows}
use garden_evm_watcher.Watcher.Delivery.Handled.{system-Reachable}
use garden_evm_watcher.Watcher.Delivery.Settles.{Calm, settled-IsRunning, service_settles}
use garden_evm_watcher.Watcher.Delivery.Chain.{IsNode}
use garden_evm_watcher.Watcher.Delivery.Waiting.{waiting-subset}
use garden_evm_watcher.Watcher.System.{selecting-IsAlive}
use garden_evm_watcher.Watcher.Delivery.Catchup.{ticks, ticks-Ticks, ticks_on, first-selecting}

module _ {H : Type 0} where
  -- No answer of the node has more jobs than the channel holds.
  pub record HasRoom (client : EthClient) (w : Watcher H) : Type 0 where
    pub room :
        (t f b : ℕ) (logs : List Log)
        → client.filter_logs t (filter_query w f b) ≡ ok logs
        → length (job_list w.address_to_handlers logs) ≤ pos_part w.config.queue_size

  Follows-HasRoom :
      (client : EthClient) (w v : Watcher H) → Follows w v → HasRoom client w → HasRoom client v
  unfolding filter_query
  Follows-HasRoom client w v f h = record {
    room = λ t from_block b logs e.
        rw (f.table, f.config) (h.room t from_block b logs (rw (f.addresses, f.topics) at e));
  }

  advance-dropped :
      (b : ℕ) (w : Watcher H) (d : Outcome (Unit {0}) × Traffic H)
      → (advance b (with_traffic w d)).1.traffic.dropped ≡ d.1.dropped
  advance-dropped b w (ok tt, q) = refl
  advance-dropped b w (err e, q) = refl
  advance-dropped b w (panic p, q) = refl

  process-dropped :
      (client : EthClient) (t f b : ℕ) (w : Watcher H)
      → HasRoom client w
      → w.traffic.queue ≡ []
      → (advance b (process_all_contract_events client t [] f b w)).1.traffic.dropped
        ≡ w.traffic.dropped
  unfolding process_all_contract_events
  process-dropped client t f b w h empty = elim (view (client.filter_logs t (filter_query w f b))) [
    | failed e eq ↦ rw (eq, process_all_contract_events) refl
    | crashed p eq ↦ rw (eq, process_all_contract_events) refl
    | returned logs eq ↦
        rw (eq, process_all_contract_events)
          (advance-dropped b w _
            ∙ dispatch_no_loss (pos_part w.config.queue_size) w.address_to_handlers logs []
                w.traffic (omega (arith, h.room t f b logs eq, ap length empty)))
  ]

  range-dropped :
      (client : EthClient) (t : ℕ) (w : Watcher H) (r : Option (ℕ × ℕ))
      → HasRoom client w
      → w.traffic.queue ≡ []
      → (elim r as (λ x. Outcome (Unit {0}) × Watcher H) [
        | none ↦ (ok tt, w)
        | some (from_block, to_block) ↦
            advance to_block (process_all_contract_events client t [] from_block to_block w)
      ]).1.traffic.dropped
        ≡ w.traffic.dropped
  range-dropped client t w none h empty = refl
  range-dropped client t w (some (f, b)) h empty = process-dropped client t f b w h empty

  poll_client-dropped :
      (client : EthClient) (t : ℕ) (w : Watcher H)
      → HasRoom client w
      → w.traffic.queue ≡ []
      → (poll_client client t [] w).1.traffic.dropped ≡ w.traffic.dropped
  unfolding poll_client
  poll_client-dropped client t w h empty = elim (view (client.block_number t)) [
    | failed e eq ↦ rw (poll_client, eq) refl
    | crashed p eq ↦ rw (poll_client, eq) refl
    | returned latest eq ↦
        rw (poll_client, eq)
          (range-dropped client t w (block_range w.current_block latest w.config.max_block_span) h
            empty)
  ]

  after_poll-traffic : (p : Outcome (Unit {0}) × Watcher H) → (after_poll p).1.traffic ≡ p.1.traffic
  unfolding after_poll leave
  after_poll-traffic (ok u, w) = refl
  after_poll-traffic (err canceled, w) = refl
  after_poll-traffic (err e, w) = refl
  after_poll-traffic (panic p, w) = refl

  -- One tick from an empty channel drops nothing.
  tick-dropped :
      (client : EthClient) (t : ℕ) (w : Watcher H)
      → w.config.eth_client ≡ some client
      → HasRoom client w
      → w.traffic.queue ≡ []
      → (loop (ticks t 1) w).0 ≡ selecting
      → (loop (ticks t 1) w).1.traffic.dropped ≡ w.traffic.dropped
  unfolding loop loop_step
  tick-dropped client t w uses h empty on =
      let (goes, same) = first-selecting (after_poll (poll_events t [] w)) (loop []) on in
      ap (λ p. p.1.traffic.dropped) same
      ∙ ap (λ q. q.dropped) (after_poll-traffic (poll_events t [] w))
      ∙ ap (λ p. p.1.traffic.dropped) (poll_events-client client t [] w uses)
      ∙ poll_client-dropped client t w h empty

-- The watcher goes on, at a block up to `latest`, and no job waits for anything.
pub record IsRested {H Db : Type 0} (call : H → Log → Exec Db (Unit {0})) (latest : ℕ)
    (v : Service H Db) : Type 0 where
  pub running : IsRunning call v
  pub nothing_taken : v.taken ≡ []
  pub nothing_queued : v.system.watcher.traffic.queue ≡ []
  pub behind : v.system.watcher.current_block ≤ latest

module _ {H Db : Type 0} (call : H → Log → Exec Db (Unit {0})) (w : Watcher H) (start : Db)
    (client : EthClient) (chain : List Log) (since latest : ℕ) (config : WatcherConfig H)
    (node : IsNode client chain) (filtering : IsFiltering client)
    (steady : IsSteady client since latest) (built : IsBuiltFrom config w)
    (uses : config.eth_client ≡ some client) (small : config.start_block < 2 ^ 63)
    (topics : w.topics ≢ []) (room : HasRoom client w)
    (calm : Calm call (job_list w.address_to_handlers chain)) where
  -- What can be reached from a state without dropping a further job.
  abbrev Goes : Service H Db → Service H Db → Type 0
  Goes v u =
      ServiceFrom call v u × (u.system.watcher.traffic.dropped ≡ v.system.watcher.traffic.dropped)

  Goes-trans : (v a u : Service H Db) → Goes v a → Goes a u → Goes v u
  Goes-trans v a u f g = (ServiceFrom-trans call v a u f.0 g.0, g.1 ∙ f.1)

  abbrev back :
      (v a : Service H Db)
      → ServiceReachable call w start v
      → Goes v a
      → ServiceReachable call w start a
  back v a r f = ServiceFrom-trans call (opened call w start) v a r f.0

  -- The workers come to the end of the jobs.
  rests :
      (v : Service H Db)
      → ServiceReachable call w start v
      → IsRunning call v
      → v.system.watcher.current_block ≤ latest
      → (u : Service H Db) × Goes v u
        × IsRested call latest u
        × (u.system.watcher.current_block ≡ v.system.watcher.current_block)
  rests v r i le =
      let (taken, queued) =
        waiting-subset call client chain config w start v node built uses small r i.now in
      let (u, settled, same, empty, whole, handled, db) =
        service_settles call v (i.whole, selecting-IsAlive v.system i.now) i.busy
          (λ job m. calm job (taken job m)) (λ job m. calm job (queued job m)) in
      (
        u,
        (settled, ap (λ s. s.watcher.traffic.dropped) same),
        record {
          running = settled-IsRunning call v u i same whole;
          nothing_taken = empty;
          nothing_queued = ap (λ s. s.watcher.traffic.queue) same;
          behind = omega (arith, ap (λ s. s.watcher.current_block) same, le);
        },
        ap (λ s. s.watcher.current_block) same,
      )

  -- A tick, and then the workers.
  round :
      (v : Service H Db)
      → ServiceReachable call w start v
      → IsRested call latest v
      → (u : Service H Db) × Goes v u
        × IsRested call latest u
        × (u.system.watcher.current_block
            ≡ min latest
                (v.system.watcher.current_block + 1 * (v.system.watcher.config.max_block_span + 1)))
  round v r i =
      let here = system-Reachable call w start v r in
      let f = Reachable-Follows w v.system here in
      let uses' = ap (λ c. c.eth_client) (f.config ∙ built.same_config) ∙ uses in
      let (on, block) =
        loop_catches_up client since latest filtering steady
          (node.fits since latest (steady.answers since (omega arith))) (ticks since 1)
          v.system.watcher uses' (λ e. topics (sym f.topics ∙ e))
          ((Reachable-IsSound w v.system built.idle here).open_channel i.running.now) i.behind
          (ticks-Ticks since 1) in
      let kept =
        tick-dropped client since v.system.watcher uses' (Follows-HasRoom client w _ f room)
          i.nothing_queued on in
      let (a, ticked_once, still, end) = ticks_on call v since 1 v at_start i.running on in
      let at = ap (λ x. x.current_block) end ∙ block in
      let go : Goes v a = (ticked_once, ap (λ x. x.traffic.dropped) end ∙ kept) in
      let (u, rested, rest, block') = rests a (back v a r go) still (omega (arith, at)) in
      (u, Goes-trans v a u go rested, rest, block' ∙ at)

  rounds :
      (n : ℕ) (v : Service H Db)
      → ServiceReachable call w start v
      → IsRested call latest v
      → latest ≤ v.system.watcher.current_block + n
      → (u : Service H Db) × Goes v u
        × IsRested call latest u
        × (u.system.watcher.current_block ≡ latest)
  rounds zero v r i near = (v, (at_start, refl), i, omega (arith, near, i.behind))
  rounds (suc n) v r i near =
      let (a, go, rest, block) = round v r i in
      let (u, further, last, at) = rounds n a (back v a r go) rest (omega (arith, block, near)) in
      (u, Goes-trans v a u go further, last, at)

  -- For a built watcher with topics, on a node that answers from a chain's logs, filters as asked,
  -- gives no answer with more jobs than the channel holds, and from `since` on serves every query
  -- and has `latest` as its last block, with handlers that neither panic nor return
  -- context.Canceled: from every reachable state in which it goes on and is not past block
  -- `latest`, steps lead on to rest at block `latest`, without dropping a further job.
  pub service_completes :
      (v : Service H Db)
      → ServiceReachable call w start v
      → IsRunning call v
      → v.system.watcher.current_block ≤ latest
      → (u : Service H Db) × Goes v u
        × IsRested call latest u
        × (u.system.watcher.current_block ≡ latest)
  service_completes v r i le =
      let (a, go, rest, block) = rests v r i le in
      let (u, further, last, at) = rounds latest a (back v a r go) rest (omega arith) in
      (u, Goes-trans v a u go further, last, at)
