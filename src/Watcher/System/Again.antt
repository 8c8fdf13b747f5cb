-- ===== src/Watcher/System/Again.antt =====
-- Another call of Stop.
use garden_evm_watcher.Common.{
  ◌≡◌, refl, ap, ◌∙◌, some, Outcome, ok, err, panic, already_stopped, close_of_closed_channel,
  canceled, arith,
}
use garden_evm_watcher.Watcher.Types.{Watcher, Quit, open_quit, closed_quit, nil_quit}
use garden_evm_watcher.Watcher.Build.Contracts.{IsIdle}
use garden_evm_watcher.Watcher.Poll.Frame.{poll_events-SameSetup}
use garden_evm_watcher.Watcher.Loop.{
  LoopState, after_poll, leave, close_queue, loop_step, workers_left, start, stop_begin,
}
use garden_evm_watcher.Watcher.System.{
  System, Step, Reachable, at_start, after, StopState, not_called, waiting, came_back, started,
  cancels, polls, polls_in_vain, sees_cancel, sees_quit, waits_for_workers, worker_receives,
  worker_sees_cancel, worker_sees_end, worker_gives_up, calls_stop, stop_returns,
}
use garden_evm_watcher.Watcher.System.Shutdown.{stop_begin-open, stop_end-inv}

-- The channel `quit` at each stage of the call of Stop.
abbrev quit_at : StopState → Quit
quit_at not_called = open_quit
quit_at waiting = closed_quit
quit_at (came_back r) = nil_quit

module _ {H : Type 0} where
  quit-after_poll : (p : Outcome (Unit {0}) × Watcher H) → (after_poll p).1.quit ≡ p.1.quit
  unfolding after_poll leave
  quit-after_poll (ok u, w) = refl
  quit-after_poll (err canceled, w) = refl
  quit-after_poll (err e, w) = refl
  quit-after_poll (panic p, w) = refl

  quit-close_queue : (w : Watcher H) → (close_queue w).1.quit ≡ w.quit
  unfolding close_queue
  quit-close_queue w = ground arith

  quit-workers_left :
      (w : Watcher H) (r : LoopState × Watcher H) → workers_left w ≡ some r → r.1.quit ≡ w.quit
  unfolding workers_left leave
  quit-workers_left w r e = ground arith

  Step-quit :
      (s t : System H)
      → s.watcher.quit ≡ quit_at s.stop
      → Step s t
      → t.watcher.quit ≡ quit_at t.stop
  unfolding loop_step leave
  Step-quit s _ q cancels = q
  Step-quit s _ q (polls_in_vain x e d) = quit-after_poll (err _, s.watcher) ∙ q
  Step-quit s _ q (polls t ms e early) =
      quit-after_poll _ ∙ (poll_events-SameSetup t ms s.watcher).quit ∙ q
  Step-quit s _ q (sees_cancel e d) = quit-close_queue s.watcher ∙ q
  Step-quit s _ q (sees_quit e d) = q
  Step-quit s _ q (waits_for_workers r e d) = quit-workers_left s.watcher r d ∙ q
  Step-quit s _ q (worker_receives n busy) = q
  Step-quit s _ q (worker_sees_cancel e) = q
  Step-quit s _ q (worker_sees_end e d) = q
  Step-quit s _ q worker_gives_up = q
  Step-quit s _ q (calls_stop e) = rw (stop_begin-open s.watcher (q ∙ ap quit_at e)) refl
  Step-quit s _ q (stop_returns r e back) =
      ap (λ (p : Outcome (Unit {0}) × Watcher H). p.1.quit) (stop_end-inv s.watcher r back).1

  Reachable-quit :
      (w : Watcher H) (s : System H) → IsIdle w → Reachable w s → s.watcher.quit ≡ quit_at s.stop
  unfolding started start
  Reachable-quit w _ idle at_start = idle.not_stopped
  Reachable-quit w _ idle (after {s} {t} r alive step) =
      Step-quit s t (Reachable-quit w s idle r) step

  stop_begin-at :
      (w : Watcher H) (s : StopState)
      → w.quit ≡ quit_at s
      → (s ≡ waiting → stop_begin w ≡ (panic close_of_closed_channel, w))
        × ((r : Outcome (Unit {0})) → s ≡ came_back r → stop_begin w ≡ (err already_stopped, w))
  unfolding stop_begin
  stop_begin-at w not_called q = ((λ e. cc), (λ r e. cc))
  stop_begin-at w waiting q = ((λ e. rw q refl), (λ r e. cc))
  stop_begin-at w (came_back x) q = ((λ e. cc), (λ r e. rw q refl))

  -- In every reachable state of a started watcher, made idle: another call of Stop while the first
  -- one waits panics, as it closes a closed channel; after the first one has come back it returns
  -- the error of a stopped watcher; and neither changes the watcher.
  pub another_stop :
      (w : Watcher H) (s : System H)
      → IsIdle w
      → Reachable w s
      → (s.stop ≡ waiting → stop_begin s.watcher ≡ (panic close_of_closed_channel, s.watcher))
        × ((r : Outcome (Unit {0}))
            → s.stop ≡ came_back r
            → stop_begin s.watcher ≡ (err already_stopped, s.watcher))
  another_stop w s idle r = stop_begin-at s.watcher s.stop (Reachable-quit w s idle r)
