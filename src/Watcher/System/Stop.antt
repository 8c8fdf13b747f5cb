-- ===== src/Watcher/System/Stop.antt =====
-- A call of Stop on a watcher whose goroutine is at its select.
use garden_evm_watcher.Common.{◌≡◌, refl, subst, false, some, ok, arith}
use garden_evm_watcher.Watcher.Types.{Watcher, closed_quit, nil_quit}
use garden_evm_watcher.Watcher.Build.Contracts.{IsIdle}
use garden_evm_watcher.Watcher.Loop.{loop_step, leave, stop_end, selecting}
use garden_evm_watcher.Watcher.System.{
  System, Reachable, From, at_start, selecting-IsAlive, after, not_called, waiting, came_back,
  looped, stopping, calls_stop, sees_quit, stop_returns,
}
use garden_evm_watcher.Watcher.System.Sound.{IsSound}
use garden_evm_watcher.Watcher.System.Shutdown.{Reachable-IsSound, stop_begin-open}

module _ {H : Type 0} where
  abbrev quitting : System H → System H
  quitting s = record s { watcher = record s.watcher { quit = closed_quit }; stop = waiting }

  calls-From :
      (s : System H) → IsSound s → s.loop ≡ selecting → s.stop ≡ not_called → From s (quitting s)
  calls-From s i now uncalled =
      subst (λ p. From s (stopping p s)) (stop_begin-open s.watcher (i.open_until_stop uncalled))
        (after at_start (selecting-IsAlive s now) (calls_stop uncalled))

  quits-From :
      (s : System H)
      → From s (quitting s)
      → s.loop ≡ selecting
      → From s (looped (leave (quitting s).watcher) (quitting s))
  unfolding loop_step
  quits-From s r now = after r (selecting-IsAlive (quitting s) now) (sees_quit now refl)

  stop_end-last :
      (w : Watcher H) → w.watchers ≡ 0 → stop_end w ≡ some (ok tt, record w { quit = nil_quit })
  unfolding stop_end
  stop_end-last w e = rw e refl

  -- From every reachable state of a started watcher, made idle, whose loop is at its select and
  -- whose Stop was not called, steps lead on to one where a call of Stop has come back without an
  -- error; no worker has left meanwhile, and the channel is still open.
  pub stop_completes :
      (w : Watcher H) (s : System H)
      → IsIdle w
      → Reachable w s
      → s.loop ≡ selecting
      → s.stop ≡ not_called
      → (t : System H) × From s t
        × (t.stop ≡ came_back (ok tt))
        × (t.watcher.workers ≡ s.watcher.workers)
        × (t.watcher.traffic.closed ≡ false)
  unfolding leave
  stop_completes w s idle r now uncalled =
      let i = Reachable-IsSound w s idle r in
      let left = quits-From s (calls-From s i now uncalled) now in
      (
        _,
        after left (λ p e. cc)
            (stop_returns _ refl (stop_end-last _ (omega (arith, i.running (λ e. cc (now, e)))))),
        refl,
        refl,
        i.open_channel now,
      )
