-- ===== src/Watcher/Delivery/Reached.antt =====
-- Where the jobs are in every state that a started watcher reaches.
use garden_evm_watcher.Common.{
  ◌^◌, ◌<◌, ◌≡◌, ◌≢◌, refl, sym, ap, ◌∙◌, List, [], ◌++◌, some, Outcome, arith, Perm-of_eq,
}
use garden_evm_watcher.Ethereum.{Log, EthClient}
use garden_evm_watcher.Watcher.Types.{WatcherConfig, Watcher}
use garden_evm_watcher.Watcher.Dispatch.Accounting.{job_list, receive_keeps, receive_dropped}
use garden_evm_watcher.Watcher.Build.Contracts.{IsBuiltFrom, IsIdle}
use garden_evm_watcher.Watcher.Loop.{
  LoopState, selecting, leave, after_poll, close_queue, loop_step, workers_left, start, stop_begin,
  stop_end,
}
use garden_evm_watcher.Watcher.System.{
  System, Step, Reachable, at_start, after, started, cancels, polls, polls_in_vain, sees_cancel,
  sees_quit, waits_for_workers, worker_receives, worker_sees_cancel, worker_sees_end,
  worker_gives_up, calls_stop, stop_returns,
}
use garden_evm_watcher.Watcher.Delivery.Chain.{IsNode, between, between-none}
use garden_evm_watcher.Watcher.Delivery.Frame.{Follows, Follows-same, Follows-trans, Step-Follows}
use garden_evm_watcher.Watcher.Delivery.Flow.{all_jobs, Flow, Flow-same, poll-Flow}

module _ {H : Type 0} where
  started-Follows : (w : Watcher H) → Follows w (started w).watcher
  unfolding started start
  started-Follows w = Follows-same w _ (refl, refl, refl, refl, refl)

  -- What every state that a started watcher reaches still has, and has received.
  pub Reachable-Follows : (w : Watcher H) (s : System H) → Reachable w s → Follows w s.watcher
  Reachable-Follows w _ at_start = started-Follows w
  Reachable-Follows w _ (after {s} {t} r alive step) =
      Follows-trans w s.watcher t.watcher (Reachable-Follows w s r) (Step-Follows s t step)

  stop_begin-flows :
      (w : Watcher H)
      → let v = (stop_begin w).1 in
        (v.current_block ≡ w.current_block)
        × (v.traffic.received ++ v.traffic.queue ≡ w.traffic.received ++ w.traffic.queue)
        × (v.traffic.dropped ≡ w.traffic.dropped)
  unfolding stop_begin
  stop_begin-flows w = ground arith

  stop_end-flows :
      (w : Watcher H) (r : Outcome (Unit {0}) × Watcher H)
      → stop_end w ≡ some r
      → (r.1.current_block ≡ w.current_block)
        × (r.1.traffic.received ++ r.1.traffic.queue ≡ w.traffic.received ++ w.traffic.queue)
        × (r.1.traffic.dropped ≡ w.traffic.dropped)
  unfolding stop_end
  stop_end-flows w r e = ground arith

  close_queue-ends : (w : Watcher H) → (close_queue w).0 ≢ selecting
  unfolding close_queue
  close_queue-ends w e = ground arith

  workers_left-ends :
      (w : Watcher H) (r : LoopState × Watcher H) → workers_left w ≡ some r → r.0 ≢ selecting
  unfolding workers_left leave
  workers_left-ends w r e now = ground arith

  all_jobs-idle : (w : Watcher H) → IsIdle w → all_jobs w.traffic ≡ []
  all_jobs-idle w i = rw (i.nothing_received, i.nothing_queued, i.nothing_dropped, all_jobs) refl

  module _ (client : EthClient) (chain : List Log) (node : IsNode client chain)
      (config : WatcherConfig H) (w : Watcher H) (built : IsBuiltFrom config w)
      (uses : config.eth_client ≡ some client) where
    started-Flow : config.start_block < 2 ^ 63 → Flow w config.start_block chain (started w).watcher
    unfolding started start
    started-Flow small = record {
      forward = omega (arith, ap (λ c. c.start_block) built.same_config);
      small = omega (arith, ap (λ c. c.start_block) built.same_config);
      jobs = Perm-of_eq (
          all_jobs-idle w built.idle
          ∙ sym (
              ap (λ b. job_list w.address_to_handlers (between config.start_block b chain))
                (ap (λ c. c.start_block) built.same_config)
              ∙ ap (job_list w.address_to_handlers) (between-none config.start_block chain)));
    }

    Step-Flow :
        (s t : System H)
        → Follows w s.watcher
        → (s.loop ≡ selecting → Flow w config.start_block chain s.watcher)
        → Step s t
        → t.loop ≡ selecting
        → Flow w config.start_block chain t.watcher
    unfolding loop_step leave after_poll
    Step-Flow s _ f flow cancels now = flow now
    Step-Flow s _ f flow (polls_in_vain e was done) now =
        Flow-same w config.start_block chain s.watcher _ (refl, refl, refl) (flow was)
    Step-Flow s _ f flow (polls t ms was early) now =
        poll-Flow client chain node config w built config.start_block t ms s.watcher uses f
          (flow was) now
    Step-Flow s _ f flow (sees_cancel was done) now = absurd (close_queue-ends s.watcher now)
    Step-Flow s _ f flow (sees_quit was closed) now = cc
    Step-Flow s _ f flow (waits_for_workers r was e) now =
        absurd (workers_left-ends s.watcher r e now)
    Step-Flow s _ f flow (worker_receives n busy) now =
        Flow-same w config.start_block chain s.watcher _
          (refl, receive_keeps n s.watcher.traffic, receive_dropped n s.watcher.traffic) (flow now)
    Step-Flow s _ f flow (worker_sees_cancel e) now =
        Flow-same w config.start_block chain s.watcher _ (refl, refl, refl) (flow now)
    Step-Flow s _ f flow (worker_sees_end e empty) now =
        Flow-same w config.start_block chain s.watcher _ (refl, refl, refl) (flow now)
    Step-Flow s _ f flow worker_gives_up now =
        Flow-same w config.start_block chain s.watcher _ (refl, refl, refl) (flow now)
    Step-Flow s _ f flow (calls_stop e) now =
        Flow-same w config.start_block chain s.watcher _ (stop_begin-flows s.watcher) (flow now)
    Step-Flow s _ f flow (stop_returns r e back) now =
        Flow-same w config.start_block chain s.watcher r.1 (stop_end-flows s.watcher r back)
          (flow now)

    -- For a built watcher on a node that answers from a chain's logs, whose block numbers and first
    -- block fit an int64: in every reachable state whose loop selects, the jobs of the blocks after
    -- the first one up to the current one are with the workers, in the channel or dropped.
    pub Reachable-Flow :
        config.start_block < 2 ^ 63
        → (s : System H) → Reachable w s
        → s.loop ≡ selecting
        → Flow w config.start_block chain s.watcher
    Reachable-Flow small _ at_start now = started-Flow small
    Reachable-Flow small _ (after {s} {t} r alive step) now =
        Step-Flow s t (Reachable-Follows w s r) (Reachable-Flow small s r) step now
