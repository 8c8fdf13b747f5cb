-- ===== src/Watcher/System/Sound.antt =====
-- The rounds of the goroutine of a started watcher.
use garden_evm_watcher.Common.{
  ◌≡◌, ◌≢◌, refl, ◌∙◌, Bool, true, false, if◌then◌else◌, nonpositive, non_positive_ticker, Outcome,
  ok, err, panic, canceled, arith,
}
use garden_evm_watcher.Watcher.Types.{Watcher, open_quit}
use garden_evm_watcher.Watcher.Build.Contracts.{IsIdle}
use garden_evm_watcher.Watcher.Poll.Frame.{SameSetup}
use garden_evm_watcher.Watcher.Loop.{
  LoopState, selecting, returned_from_loop, crashed_loop, start, after_poll, leave,
}
use garden_evm_watcher.Watcher.System.{System, begun, not_called, came_back, started, looped}

begun-goes :
    (b : Bool) → begun (if b then panic non_positive_ticker else ok tt) ≢ returned_from_loop
begun-goes true e = cc
begun-goes false e = cc

module _ {H : Type 0} where
  -- The goroutine is counted until it returns; while it selects the channel is open; `quit` is open
  -- until Stop is called; and Stop comes back without an error, after the goroutine has returned.
  pub record IsSound (s : System H) : Type 0 where
    pub open_channel : s.loop ≡ selecting → s.watcher.traffic.closed ≡ false
    pub running : s.loop ≢ returned_from_loop → s.watcher.watchers ≡ 1
    pub gone : s.loop ≡ returned_from_loop → s.watcher.watchers ≡ 0
    pub open_until_stop : s.stop ≡ not_called → s.watcher.quit ≡ open_quit
    pub stopped :
        (r : Outcome (Unit {0}))
        → s.stop ≡ came_back r
        → (r ≡ ok tt) × (s.loop ≡ returned_from_loop)

  pub started-IsSound : (w : Watcher H) → IsIdle w → IsSound (started w)
  unfolding started start
  started-IsSound w i = record {
    open_channel = λ e. i.still_open;
    running = λ n. omega (arith, i.no_watchers);
    gone = λ e. absurd (begun-goes (nonpositive w.config.polling_interval) e);
    open_until_stop = λ e. i.not_stopped;
    stopped = λ r e. cc;
  }

  -- A round of the goroutine that leaves it in the loop state `l`.
  pub looped-IsSound :
      (s : System H) (l : LoopState) (w : Watcher H)
      → IsSound s
      → s.loop ≢ returned_from_loop
      → w.quit ≡ s.watcher.quit
      → (l ≡ selecting → w.traffic.closed ≡ false)
      → (l ≢ returned_from_loop → w.watchers ≡ 1)
      → (l ≡ returned_from_loop → w.watchers ≡ 0)
      → IsSound (looped (l, w) s)
  looped-IsSound s l w i on same closing run go = record {
    open_channel = closing;
    running = run;
    gone = go;
    open_until_stop = λ e. same ∙ i.open_until_stop e;
    stopped = λ r e. absurd (on ((i.stopped r e).1));
  }

  pub left-IsSound :
      (s : System H) (w : Watcher H)
      → IsSound s
      → s.loop ≢ returned_from_loop
      → w.quit ≡ s.watcher.quit
      → w.watchers ≡ 1
      → IsSound (looped (leave w) s)
  unfolding leave
  left-IsSound s w i on same one =
      looped-IsSound s returned_from_loop _ i on same (λ e. cc) (λ n. absurd (n refl))
        (λ e. omega (arith, one))

  pub polled-IsSound :
      (s : System H)
      → IsSound s
      → s.loop ≡ selecting
      → (p : Outcome (Unit {0}) × Watcher H) → SameSetup s.watcher p.1
      → IsSound (looped (after_poll p) s)
  unfolding after_poll
  polled-IsSound s i now (ok u, w) f =
      looped-IsSound s selecting w i (λ e. cc (now, e)) f.quit (λ e. f.closed ∙ i.open_channel now)
        (λ n. f.watchers ∙ i.running (λ e. cc (now, e))) (λ e. cc)
  polled-IsSound s i now (err canceled, w) f =
      left-IsSound s w i (λ e. cc (now, e)) f.quit (f.watchers ∙ i.running (λ e. cc (now, e)))
  polled-IsSound s i now (err e, w) f =
      looped-IsSound s selecting w i (λ e. cc (now, e)) f.quit (λ e. f.closed ∙ i.open_channel now)
        (λ n. f.watchers ∙ i.running (λ e. cc (now, e))) (λ e. cc)
  polled-IsSound s i now (panic p, w) f =
      looped-IsSound s (crashed_loop p) w i (λ e. cc (now, e)) f.quit (λ e. cc)
        (λ n. f.watchers ∙ i.running (λ e. cc (now, e))) (λ e. cc)
