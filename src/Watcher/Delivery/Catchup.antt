-- ===== src/Watcher/Delivery/Catchup.antt =====
-- A running watcher can always go on to the last block of its chain and to the end of its jobs.
use garden_evm_watcher.Common.{
  ℕ, zero, suc, ◌+◌, ◌*◌, ◌^◌, ◌≤◌, ◌<◌, ◌≡◌, ◌≢◌, refl, sym, ap, ◌∙◌, List, [], ◌++◌, append-nil,
  replicate, length, some, Outcome, ok, err, panic, canceled, arith, min, Exec,
}
use mathlib.Core.List.{Perm}
use garden_evm_watcher.Ethereum.{Log, EthClient, IsFiltering}
use garden_evm_watcher.Watcher.Types.{WatcherConfig, Watcher}
use garden_evm_watcher.Watcher.Dispatch.Accounting.{job_list}
use garden_evm_watcher.Watcher.Build.Contracts.{IsBuiltFrom}
use garden_evm_watcher.Watcher.Poll.{poll_events}
use garden_evm_watcher.Watcher.Poll.Frame.{poll_events-SameSetup}
use garden_evm_watcher.Watcher.Loop.{
  LoopState, LoopEvent, ticked, selecting, returned_from_loop, awaiting_workers, crashed_loop,
  after_poll, leave, loop_step, loop, while_selecting,
}
use garden_evm_watcher.Watcher.Loop.Catchup.{IsSteady, Ticks, loop_catches_up}
use garden_evm_watcher.Watcher.System.{selecting-IsAlive, polls}
use garden_evm_watcher.Watcher.System.Shutdown.{Reachable-IsSound}
use garden_evm_watcher.Watcher.Delivery.{
  Service, ServiceFrom, ServiceReachable, ServiceFrom-trans, IsRunning, opened, at_start, moves,
  after,
}
use garden_evm_watcher.Watcher.Delivery.Chain.{IsNode, between}
use garden_evm_watcher.Watcher.Delivery.Reached.{Reachable-Follows}
use garden_evm_watcher.Watcher.Delivery.Handled.{system-Reachable, service_delivers}
use garden_evm_watcher.Watcher.Delivery.Settles.{Calm, settled-IsRunning, service_settles}
use garden_evm_watcher.Watcher.Delivery.Waiting.{waiting-subset}

-- Ticks at a moment, during which no other goroutine does anything.
abbrev pub ticks : ℕ → ℕ → List LoopEvent
ticks t n = replicate n (ticked t [])

pub ticks-Ticks : (t n : ℕ) → Ticks t (ticks t n)
ticks-Ticks t zero = tt
ticks-Ticks t (suc n) = (omega arith, (tt, ticks-Ticks t n))

length-ticks : (t n : ℕ) → length (ticks t n) ≡ n
length-ticks t zero = refl
length-ticks t (suc n) = ap suc (length-ticks t n)

module _ {H : Type 0} where
  after_poll-workers : (p : Outcome (Unit {0}) × Watcher H) → (after_poll p).1.workers ≡ p.1.workers
  unfolding after_poll leave
  after_poll-workers (ok u, w) = refl
  after_poll-workers (err canceled, w) = refl
  after_poll-workers (err e, w) = refl
  after_poll-workers (panic p, w) = refl

  tick-workers : (t : ℕ) (w : Watcher H) → (loop_step (ticked t []) w).1.workers ≡ w.workers
  unfolding loop_step
  tick-workers t w =
      after_poll-workers (poll_events t [] w) ∙ (poll_events-SameSetup t [] w).workers

  -- The first of several rounds goes on.
  pub first-selecting :
      (p : LoopState × Watcher H) (k : Watcher H → LoopState × Watcher H)
      → (while_selecting p k).0 ≡ selecting
      → (p.0 ≡ selecting) × (while_selecting p k ≡ k p.1)
  first-selecting (selecting, w) k e = (refl, refl)
  first-selecting (returned_from_loop, w) k e = cc
  first-selecting (awaiting_workers, w) k e = cc
  first-selecting (crashed_loop p, w) k e = cc

module _ {H Db : Type 0} (call : H → Log → Exec Db (Unit {0})) where
  pub ticks_on :
      (first : Service H Db) (t n : ℕ) (v : Service H Db)
      → ServiceFrom call first v
      → IsRunning call v
      → (loop (ticks t n) v.system.watcher).0 ≡ selecting
      → (u : Service H Db) × ServiceFrom call first u
        × IsRunning call u
        × (u.system.watcher ≡ (loop (ticks t n) v.system.watcher).1)
  unfolding loop
  ticks_on first t zero v r i on = (v, r, i, refl)
  ticks_on first t (suc n) v r i on =
      let (goes, same) =
        first-selecting (loop_step (ticked t []) v.system.watcher) (loop (ticks t n)) on in
      let (u, reached, still, end) =
        ticks_on first t n _
          (after r (i.whole, selecting-IsAlive v.system i.now)
            (moves _ (polls t [] i.now i.not_done) refl))
          (record {
            now = goes;
            not_done = refl;
            busy = omega (arith, tick-workers t v.system.watcher, i.busy);
            whole = i.whole;
          })
          (ap (λ p. p.0) (sym same) ∙ on) in
      (u, reached, still, end ∙ ap (λ p. p.1) (sym same))

  enough_ticks : (latest b span : ℕ) → b ≤ latest → min latest (b + latest * (span + 1)) ≡ latest
  enough_ticks latest b span le = grind arith

  module _ (client : EthClient) (since latest : ℕ) (filtering : IsFiltering client)
      (steady : IsSteady client since latest) (small : latest < 2 ^ 63) where
    catches_up :
        (w : Watcher H) (start : Db) (config : WatcherConfig H) (v : Service H Db)
        → IsBuiltFrom config w
        → config.eth_client ≡ some client
        → w.topics ≢ []
        → ServiceReachable call w start v
        → IsRunning call v
        → v.system.watcher.current_block ≤ latest
        → (u : Service H Db) × ServiceFrom call v u
          × IsRunning call u
          × (u.system.watcher.current_block ≡ latest)
    catches_up w start config v built uses topics r i le =
        let here = system-Reachable call w start v r in
        let f = Reachable-Follows w v.system here in
        let (on, block) =
          loop_catches_up client since latest filtering steady small (ticks since latest)
            v.system.watcher (ap (λ c. c.eth_client) (f.config ∙ built.same_config) ∙ uses)
            (λ e. topics (sym f.topics ∙ e))
            ((Reachable-IsSound w v.system built.idle here).open_channel i.now) le
            (ticks-Ticks since latest) in
        let (u, reached, still, end) = ticks_on v since latest v at_start i on in
        (
          u,
          reached,
          still,
          ap (λ x. x.current_block) end
              ∙ block
              ∙ ap
                  (λ n. min latest (
                    v.system.watcher.current_block
                    + n * (v.system.watcher.config.max_block_span + 1)))
                  (length-ticks since latest)
              ∙ enough_ticks latest v.system.watcher.current_block
                  v.system.watcher.config.max_block_span le,
        )

  -- For a built watcher with topics, on a node that answers from a chain's logs, filters as asked,
  -- has block numbers and a first block that fit an int64, and from some moment on serves every
  -- query and has `latest` as its last block, with handlers that on the chain's jobs neither panic
  -- nor return context.Canceled: from every state that it reaches whose loop selects, whose context
  -- is not done, that has a worker left, has not crashed and is not past block `latest`, steps lead
  -- on to one of the same kind at block `latest` where the channel is empty and no worker has a
  -- job; and the jobs whose handlers have run and those dropped are then together, each exactly
  -- once, the jobs of the chain's logs after the first block up to `latest`.
  pub service_catches_up :
      (client : EthClient) (chain : List Log) (since latest : ℕ) (config : WatcherConfig H)
      (w : Watcher H) (start : Db) (v : Service H Db)
      → IsNode client chain
      → IsFiltering client
      → IsSteady client since latest
      → IsBuiltFrom config w
      → config.eth_client ≡ some client
      → config.start_block < 2 ^ 63
      → w.topics ≢ []
      → Calm call (job_list w.address_to_handlers chain)
      → ServiceReachable call w start v
      → IsRunning call v
      → v.system.watcher.current_block ≤ latest
      → (u : Service H Db) × ServiceFrom call v u
        × IsRunning call u
        × (u.system.watcher.current_block ≡ latest)
        × (u.taken ≡ [])
        × (u.system.watcher.traffic.queue ≡ [])
        × Perm
            (u.handled ++ u.system.watcher.traffic.dropped)
            (job_list w.address_to_handlers (between config.start_block latest chain))
  service_catches_up client chain since latest config w start v node filtering steady built uses
        small topics calm r i le =
      let (a, reached, still, block) =
        catches_up client since latest filtering steady
          (node.fits since latest (steady.answers since (omega arith))) w start config v built uses
          topics r i le in
      let back = ServiceFrom-trans call (opened call w start) v a r reached in
      let (taken, queued) =
        waiting-subset call client chain config w start a node built uses small back still.now in
      let (u, settled, same, empty, whole, handled, db) =
        service_settles call a (still.whole, selecting-IsAlive a.system still.now) still.busy
          (λ job m. calm job (taken job m)) (λ job m. calm job (queued job m)) in
      let at : u.system.watcher.current_block ≡ latest =
        ap (λ s. s.watcher.current_block) same ∙ block in
      let drained : u.system.watcher.traffic.queue ≡ [] = ap (λ s. s.watcher.traffic.queue) same in
      let running = settled-IsRunning call a u still same whole in
      (
        u,
        ServiceFrom-trans call v a u reached settled,
        running,
        at,
        empty,
        drained,
        rw (empty, drained, at, append-nil u.handled, append-nil u.handled) at
            (service_delivers call client chain config w start u node built uses small
              (ServiceFrom-trans call (opened call w start) a u back settled) running.now),
      )
