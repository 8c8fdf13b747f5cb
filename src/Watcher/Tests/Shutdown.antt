-- ===== src/Watcher/Tests/Shutdown.antt =====
-- A started watcher, polled once and stopped.
use garden_evm_watcher.Common.{
  ℕ, ◌≡◌, refl, [], ◌∷◌, lookup, Outcome, ok, err, panic, already_stopped, close_of_closed_channel,
  bytes_comparable, false,
}
use garden_evm_watcher.Watcher.Build.Contracts.{IsIdle}
use garden_evm_watcher.Watcher.Dispatch.{quiet, dispatch, find_job, try_send, receive}
use garden_evm_watcher.Watcher.Poll.{
  block_range, process_all_contract_events, poll_client, poll_with, block_range, filter_query,
  poll_client, poll_events,
}
use garden_evm_watcher.Watcher.Loop.{start, loop_step, after_poll, ticked, selecting, stop_begin}
use garden_evm_watcher.Watcher.System.{
  System, Reachable, From, selecting-IsAlive, at_start, after, polls, looped, started, not_called,
  came_back, waiting, calls_stop, stopping,
}
use garden_evm_watcher.Watcher.System.Sound.{IsSound}
use garden_evm_watcher.Watcher.System.Shutdown.{Reachable-IsSound}
use garden_evm_watcher.Watcher.System.Stop.{stop_completes}
use garden_evm_watcher.Watcher.System.Again.{another_stop}
use garden_evm_watcher.Watcher.Tests.{built}
use garden_evm_watcher.Watcher.Tests.Build.{built-IsBuiltFrom}

built-IsIdle : IsIdle built
built-IsIdle = built-IsBuiltFrom.idle

-- Started, and after a first poll.
abbrev polled : System ℕ
polled = looped (loop_step (ticked 0 (quiet ∷ [])) (started built).watcher) (started built)

polled-Reachable : Reachable built polled
unfolding started start
polled-Reachable =
    after at_start (selecting-IsAlive (started built) refl) (polls 0 (quiet ∷ []) refl refl)

polled_selecting : polled.loop ≡ selecting
unfolding started start loop_step after_poll poll_events poll_with poll_client block_range
    process_all_contract_events dispatch filter_query find_job try_send receive lookup
polled_selecting = refl

polled_uncalled : polled.stop ≡ not_called
unfolding started
polled_uncalled = refl

Reachable-IsSound_example : IsSound polled
Reachable-IsSound_example = Reachable-IsSound built polled built-IsIdle polled-Reachable

polled-IsSound : IsSound polled
polled-IsSound = Reachable-IsSound built polled built-IsIdle polled-Reachable

stop_completes_example :
    (t : System ℕ) × From polled t
    × (t.stop ≡ came_back (ok tt))
    × (t.watcher.workers ≡ polled.watcher.workers)
    × (t.watcher.traffic.closed ≡ false)
stop_completes_example =
    stop_completes built polled built-IsIdle polled-Reachable polled_selecting polled_uncalled

-- Stop was called after the poll, and waits.
abbrev stopping_now : System ℕ
stopping_now = stopping (stop_begin polled.watcher) polled

stopping_now-Reachable : Reachable built stopping_now
stopping_now-Reachable =
    after polled-Reachable (selecting-IsAlive polled polled_selecting) (calls_stop polled_uncalled)

another_stop_example :
    (stopping_now.stop ≡ waiting
      → stop_begin stopping_now.watcher ≡ (panic close_of_closed_channel, stopping_now.watcher))
    × ((r : Outcome (Unit {0}))
        → stopping_now.stop ≡ came_back r
        → stop_begin stopping_now.watcher ≡ (err already_stopped, stopping_now.watcher))
another_stop_example = another_stop built stopping_now built-IsIdle stopping_now-Reachable
