-- ===== src/Watcher/System/Shutdown.antt =====
-- What holds in every reachable state of a started watcher.
use garden_evm_watcher.Common.{
  ◌≡◌, ◌≢◌, refl, sym, ap, subst, ◌∙◌, ◌⊎◌, inl, inr, Bool, true, false, if◌then◌else◌, eqb,
  eqb_iff, none, some, Outcome, ok, close_of_closed_channel, arith,
}
use garden_evm_watcher.Watcher.Types.{Watcher, open_quit, closed_quit, nil_quit}
use garden_evm_watcher.Watcher.Build.Contracts.{IsIdle}
use garden_evm_watcher.Watcher.Dispatch.{receive, any_done}
use garden_evm_watcher.Watcher.Poll.Frame.{poll_events-SameSetup}
use garden_evm_watcher.Watcher.Loop.{
  ctx_done, LoopState, selecting, awaiting_workers, returned_from_loop, crashed_loop, leave,
  after_poll, ticked, close_queue, loop_step, workers_left, stop_begin, stop_end,
}
use garden_evm_watcher.Watcher.System.{
  System, Step, Reachable, at_start, after, StopState, not_called, waiting, came_back, looped,
  stopping, without_worker, cancels, polls, polls_in_vain, sees_cancel, sees_quit,
  waits_for_workers, worker_receives, worker_sees_cancel, worker_sees_end, worker_gives_up,
  calls_stop, stop_returns,
}
use garden_evm_watcher.Watcher.System.Sound.{
  IsSound, started-IsSound, looped-IsSound, left-IsSound, polled-IsSound,
}

outcome_of : Outcome (Unit {0}) → StopState → Outcome (Unit {0})
outcome_of other (came_back r) = r
outcome_of other _ = other

has_returned : (l : LoopState) → (l ≡ returned_from_loop) ⊎ (l ≢ returned_from_loop)
has_returned returned_from_loop = inl refl
has_returned selecting = inr (λ e. cc)
has_returned awaiting_workers = inr (λ e. cc)
has_returned (crashed_loop p) = inr (λ e. cc)

if_some :
    {A : Type 0} (b : Bool) (x r : A) → (if b then some x else none) ≡ some r → (b ≡ true) × (x ≡ r)
if_some true x r e = (refl, ground (arith, e))
if_some false x r e = cc

module _ {H : Type 0} where
  -- In a sound state, a loop at its select that sees the context done closes the channel, without a
  -- panic, and waits for the workers.
  pub sees_cancel-closes :
      (s : System H)
      → IsSound s
      → s.loop ≡ selecting
      → loop_step ctx_done s.watcher ≡ (
        awaiting_workers,
        record s.watcher { traffic = record s.watcher.traffic { closed = true } },
      )
  unfolding loop_step close_queue
  sees_cancel-closes s i now =
      ap
        (λ (b : Bool). if b then (crashed_loop close_of_closed_channel, s.watcher) else (
          awaiting_workers,
          record s.watcher { traffic = record s.watcher.traffic { closed = true } },
        ))
        (i.open_channel now)

  -- A step of other goroutines, which changes the traffic and the count of workers at most.
  aside-IsSound :
      (s : System H) (w : Watcher H) (c : Bool)
      → IsSound s
      → w.quit ≡ s.watcher.quit
      → w.watchers ≡ s.watcher.watchers
      → w.traffic.closed ≡ s.watcher.traffic.closed
      → IsSound (record s { watcher = w; canceled = c })
  aside-IsSound s w c i same count closed = record {
    open_channel = λ e. closed ∙ i.open_channel e;
    running = λ n. count ∙ i.running n;
    gone = λ e. count ∙ i.gone e;
    open_until_stop = λ e. same ∙ i.open_until_stop e;
    stopped = i.stopped;
  }

  pub stop_begin-open :
      (w : Watcher H) → w.quit ≡ open_quit → stop_begin w ≡ (ok tt, record w { quit = closed_quit })
  unfolding stop_begin
  stop_begin-open w e = rw e refl

  stopping-IsSound :
      (s : System H) → IsSound s → s.stop ≡ not_called → IsSound (stopping (stop_begin s.watcher) s)
  stopping-IsSound s i now =
      subst (λ p. IsSound (stopping p s)) (sym (stop_begin-open s.watcher (i.open_until_stop now)))
        (record {
          open_channel = i.open_channel;
          running = i.running;
          gone = i.gone;
          open_until_stop = λ e. cc;
          stopped = λ r e. cc;
        })

  workers_left-leave :
      (w : Watcher H) (r : LoopState × Watcher H)
      → workers_left w ≡ some r
      → (r ≡ leave w) × (w.workers ≡ 0)
  unfolding workers_left
  workers_left-leave w r e =
      let (none_left, same) = if_some (eqb w.workers 0) (leave w) r e in
      (sym same, (eqb_iff w.workers 0).0 none_left)

  workers-IsSound :
      (s : System H) (r : LoopState × Watcher H)
      → IsSound s
      → s.loop ≡ awaiting_workers
      → workers_left s.watcher ≡ some r
      → IsSound (looped r s)
  workers-IsSound s r i now e =
      let (same, none_left) = workers_left-leave s.watcher r e in
      subst (λ q. IsSound (looped q s)) (sym same)
        (left-IsSound s s.watcher i (λ q. cc (now, q)) refl (i.running (λ q. cc (now, q))))

  pub stop_end-inv :
      (w : Watcher H) (r : Outcome (Unit {0}) × Watcher H)
      → stop_end w ≡ some r
      → (w.watchers ≡ 0) × (r ≡ (ok tt, record w { quit = nil_quit }))
  unfolding stop_end
  stop_end-inv w r e =
      let (none_left, same) =
        if_some (eqb w.watchers 0) (ok tt, record w { quit = nil_quit }) r e in
      ((eqb_iff w.watchers 0).0 none_left, sym same)

  returned-IsSound :
      (s : System H) (r : Outcome (Unit {0}) × Watcher H)
      → IsSound s
      → s.stop ≡ waiting
      → stop_end s.watcher ≡ some r
      → IsSound (record s { watcher = r.1; stop = came_back r.0 })
  unfolding outcome_of
  returned-IsSound s r i now e =
      let (none_left, same) = stop_end-inv s.watcher r e in
      let over : s.loop ≡ returned_from_loop = elim (has_returned s.loop) [
        | inl yes_it_has ↦ yes_it_has
        | inr not_yet ↦ absurd (omega (arith, none_left, i.running not_yet))
      ] in
      subst (λ q. IsSound (record s { watcher = q.1; stop = came_back q.0 })) (sym same)
        (record {
          open_channel = λ q. cc (over, q);
          running = λ n. absurd (n over);
          gone = λ q. none_left;
          open_until_stop = λ q. cc;
          stopped = λ q back. (ap (outcome_of q) (sym back), over);
        })

  Step-IsSound : (s t : System H) → IsSound s → Step s t → IsSound t
  unfolding loop_step receive after_poll
  Step-IsSound s _ i cancels = aside-IsSound s s.watcher true i refl refl refl
  Step-IsSound s _ i (polls t ms now early) =
      let j = polled-IsSound s i now _ (poll_events-SameSetup t ms s.watcher) in
      aside-IsSound (looped (loop_step (ticked t ms) s.watcher) s) _ (any_done ms) j refl refl refl
  Step-IsSound s _ i (polls_in_vain e now done) =
      looped-IsSound s selecting s.watcher i (λ e. cc (now, e)) refl (λ q. i.open_channel now)
        (λ n. i.running (λ e. cc (now, e))) (λ q. cc)
  Step-IsSound s _ i (sees_cancel now done) =
      subst (λ p. IsSound (looped p s)) (sym (sees_cancel-closes s i now))
        (looped-IsSound s awaiting_workers _ i (λ e. cc (now, e)) refl (λ e. cc)
          (λ n. i.running (λ e. cc (now, e))) (λ e. cc))
  Step-IsSound s _ i (sees_quit now closed) =
      left-IsSound s s.watcher i (λ e. cc (now, e)) refl (i.running (λ e. cc (now, e)))
  Step-IsSound s _ i (waits_for_workers r now e) = workers-IsSound s r i now e
  Step-IsSound s _ i (worker_receives n busy) = aside-IsSound s _ s.canceled i refl refl refl
  Step-IsSound s _ i (worker_sees_cancel e) =
      aside-IsSound s (without_worker s.watcher) s.canceled i refl refl refl
  Step-IsSound s _ i (worker_sees_end e f) =
      aside-IsSound s (without_worker s.watcher) s.canceled i refl refl refl
  Step-IsSound s _ i worker_gives_up =
      aside-IsSound s (without_worker s.watcher) s.canceled i refl refl refl
  Step-IsSound s _ i (calls_stop now) = stopping-IsSound s i now
  Step-IsSound s _ i (stop_returns r now e) = returned-IsSound s r i now e

  -- In every state that a started watcher, made idle, can reach, whatever the order of the steps of
  -- the loop, the workers, the context and one call of Stop: while the loop selects the channel is
  -- open, the loop is counted exactly until it returns, and Stop comes back without an error and
  -- only after the loop has returned.
  pub Reachable-IsSound : (w : Watcher H) (s : System H) → IsIdle w → Reachable w s → IsSound s
  Reachable-IsSound w _ idle at_start = started-IsSound w idle
  Reachable-IsSound w _ idle (after {s} {t} r alive step) =
      Step-IsSound s t (Reachable-IsSound w s idle r) step
