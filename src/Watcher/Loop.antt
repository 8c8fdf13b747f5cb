-- ===== src/Watcher/Loop.antt =====
-- pkg/watcher/watcher.go: Start, the goroutine of `start`, and Stop.
pub mod Scan
pub mod Catchup
use garden_evm_watcher.Common.{
  ℕ, suc, ◌+◌, ◌-◌, Bool, true, false, if◌then◌else◌, eqb, List, [], ◌∷◌, Option, none, some,
  Outcome, ok, err, panic, Panic, Error, canceled, already_stopped, wrapped, external,
  non_positive_ticker, close_of_closed_channel, nonpositive, pos_part,
}
use garden_evm_watcher.Watcher.Types.{Watcher, Traffic, Quit, open_quit, closed_quit, nil_quit}
use garden_evm_watcher.Watcher.Dispatch.{Moment}
use garden_evm_watcher.Watcher.Poll.{poll_events}

-- What a round of the goroutine's `select` finds: the context is done, a tick at a time `t`, with
-- the moments of the poll that it starts, or the `quit` channel is closed.
pub data LoopEvent : Type 0 where
  ctx_done : LoopEvent
  ticked : ℕ → List Moment → LoopEvent
  quit_closed : LoopEvent

-- Where the goroutine stands: before its next `select`, in `workerWg.Wait()`, returned, or crashed.
pub data LoopState : Type 0 where
  selecting : LoopState
  awaiting_workers : LoopState
  returned_from_loop : LoopState
  crashed_loop : Panic → LoopState

module _ {H : Type 0} where
  -- `time.NewTicker` panics if the interval is not positive.
  unfoldable pub start : Watcher H → Outcome (Unit {0}) × Watcher H
  start w = (
    if nonpositive w.config.polling_interval then panic non_positive_ticker else ok tt,
    record w {
      workers = w.workers + pos_part w.config.worker_count;
      current_block = w.config.start_block;
      watchers = w.watchers + 1;
    },
  )

  -- `defer w.watcherWg.Done()`
  unfoldable pub leave : Watcher H → LoopState × Watcher H
  leave w = (returned_from_loop, record w { watchers = w.watchers - 1 })

  -- close(w.jobQueue)
  unfoldable pub close_queue : Watcher H → LoopState × Watcher H
  close_queue w =
      if w.traffic.closed
      then (crashed_loop close_of_closed_channel, w)
      else (awaiting_workers, record w { traffic = record w.traffic { closed = true } })

  -- The goroutine's view of a poll: only `context.Canceled` itself ends the loop.
  unfoldable pub after_poll : Outcome (Unit {0}) × Watcher H → LoopState × Watcher H
  unfolding leave
  after_poll (ok u, w) = (selecting, w)
  after_poll (err canceled, w) = leave w
  after_poll (err e, w) = (selecting, w)
  after_poll (panic p, w) = (crashed_loop p, w)

  unfoldable pub loop_step : LoopEvent → Watcher H → LoopState × Watcher H
  unfolding leave close_queue
  loop_step ctx_done w = close_queue w
  loop_step (ticked t ms) w = after_poll (poll_events t ms w)
  loop_step quit_closed w = leave w

  abbrev pub while_selecting :
      LoopState × Watcher H → (Watcher H → LoopState × Watcher H) → LoopState × Watcher H
  while_selecting (selecting, w) k = k w
  while_selecting (s, w) k = (s, w)

  unfoldable pub loop : List LoopEvent → Watcher H → LoopState × Watcher H
  loop [] w = (selecting, w)
  loop (e ∷ es) w = while_selecting (loop_step e w) (loop es)

  -- `w.workerWg.Wait()` goes on when no worker is left.
  unfoldable pub workers_left : Watcher H → Option (LoopState × Watcher H)
  unfolding leave
  workers_left w = if eqb w.workers 0 then some (leave w) else none

  -- Stop up to `watcherWg.Wait()`, and from there on; `none` while the goroutine runs.
  unfoldable pub stop_begin : Watcher H → Outcome (Unit {0}) × Watcher H
  stop_begin w = elim w.quit [
    | nil_quit ↦ (err already_stopped, w)
    | closed_quit ↦ (panic close_of_closed_channel, w)
    | open_quit ↦ (ok tt, record w { quit = closed_quit })
  ]

  unfoldable pub stop_end : Watcher H → Option (Outcome (Unit {0}) × Watcher H)
  stop_end w = if eqb w.watchers 0 then some (ok tt, record w { quit = nil_quit }) else none
