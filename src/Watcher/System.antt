-- ===== src/Watcher/System.antt =====
-- pkg/watcher/watcher.go: a started watcher as a whole. The polling goroutine, the workers, the
-- context and one call of Stop take their steps in any order.
pub mod Sound
pub mod Shutdown
pub mod Stop
pub mod Again
use garden_evm_watcher.Common.{
  ℕ, suc, ◌-◌, ◌<◌, ◌≡◌, ◌≢◌, Error, Panic, wrapped, ascii, Bool, true, false, List, [], ◌∷◌,
  Option, none, some, Outcome, ok, err, panic,
}
use garden_evm_watcher.Watcher.Types.{Watcher, Quit, open_quit, closed_quit}
use garden_evm_watcher.Watcher.Dispatch.{Moment, receive, any_done}
use garden_evm_watcher.Watcher.Loop.{
  LoopEvent, ctx_done, ticked, quit_closed, LoopState, selecting, awaiting_workers,
  returned_from_loop, crashed_loop, start, after_poll, loop_step, workers_left, stop_begin,
  stop_end,
}

-- Where Start leaves the goroutine: a panic of `time.NewTicker` ends the process.
abbrev pub begun : Outcome (Unit {0}) → LoopState
begun (ok u) = selecting
begun (err e) = returned_from_loop
begun (panic p) = crashed_loop p

-- The call of Stop: not made, in `watcherWg.Wait()`, or returned.
pub data StopState : Type 0 where
  not_called : StopState
  waiting : StopState
  came_back : Outcome (Unit {0}) → StopState

abbrev pub called : Outcome (Unit {0}) → StopState
called (ok u) = waiting
called (err e) = came_back (err e)
called (panic p) = came_back (panic p)

pub record System (H : Type 0) : Type 0 where
  pub watcher : Watcher H
  pub loop : LoopState
  pub stop : StopState
  pub canceled : Bool

module _ {H : Type 0} where
  -- After Start.
  unfoldable pub started : Watcher H → System H
  started w = record {
    watcher = (start w).1;
    loop = begun (start w).0;
    stop = not_called;
    canceled = false;
  }

  abbrev pub looped : LoopState × Watcher H → System H → System H
  looped (l, w) s = record s { watcher = w; loop = l }

  abbrev pub stopping : Outcome (Unit {0}) × Watcher H → System H → System H
  stopping (r, w) s = record s { watcher = w; stop = called r }

  -- `defer w.workerWg.Done()`
  abbrev pub without_worker : Watcher H → Watcher H
  without_worker w = record w { workers = w.workers - 1 }

  pub data Step (s : System H) : System H → Type 0 where
    cancels : Step s (record s { canceled = true })
    -- while the context is not done, or until it is during the poll
    polls :
        (t : ℕ) (ms : List Moment)
        → s.loop ≡ selecting
        → s.canceled ≡ false
        → Step s (looped (loop_step (ticked t ms) s.watcher) (record s { canceled = any_done ms }))
    -- a tick that is chosen although the context is done: `BlockNumber(ctx)` fails
    polls_in_vain :
        (e : Error)
        → s.loop ≡ selecting
        → s.canceled ≡ true
        → Step s (
            looped
              (after_poll (err (wrapped (ascii "failed to get latest block number") e), s.watcher))
              s)
    sees_cancel :
        s.loop ≡ selecting → s.canceled ≡ true → Step s (looped (loop_step ctx_done s.watcher) s)
    sees_quit :
        s.loop ≡ selecting
        → s.watcher.quit ≡ closed_quit
        → Step s (looped (loop_step quit_closed s.watcher) s)
    waits_for_workers :
        (r : LoopState × Watcher H)
        → s.loop ≡ awaiting_workers
        → workers_left s.watcher ≡ some r
        → Step s (looped r s)
    worker_receives :
        (n : ℕ)
        → 0 < s.watcher.workers
        → Step s (record s { watcher = record s.watcher { traffic = receive n s.watcher.traffic } })
    -- the context is done, or the channel is closed and empty, or a handler returned
    -- context.Canceled
    worker_sees_cancel :
        s.canceled ≡ true → Step s (record s { watcher = without_worker s.watcher })
    worker_sees_end :
        s.watcher.traffic.closed ≡ true
        → s.watcher.traffic.queue ≡ []
        → Step s (record s { watcher = without_worker s.watcher })
    worker_gives_up : Step s (record s { watcher = without_worker s.watcher })
    calls_stop : s.stop ≡ not_called → Step s (stopping (stop_begin s.watcher) s)
    stop_returns :
        (r : Outcome (Unit {0}) × Watcher H)
        → s.stop ≡ waiting
        → stop_end s.watcher ≡ some r
        → Step s (record s { watcher = r.1; stop = came_back r.0 })

  -- A panic of the goroutine ends the process.
  abbrev pub IsAlive : System H → Type 0
  IsAlive s = (p : Panic) → s.loop ≢ crashed_loop p

  -- Any number of steps.
  pub data From (first : System H) : System H → Type 0 where
    at_start : From first first
    after : {s t : System H} → From first s → IsAlive s → Step s t → From first t

  abbrev pub Reachable : Watcher H → System H → Type 0
  Reachable w = From (started w)

  pub From-trans : (r s t : System H) → From r s → From s t → From r t
  From-trans r s _ f at_start = f
  From-trans r s _ f (after {s = y} g alive step) = after (From-trans r s y f g) alive step

  pub selecting-IsAlive : (s : System H) → s.loop ≡ selecting → IsAlive s
  selecting-IsAlive s now p e = cc
