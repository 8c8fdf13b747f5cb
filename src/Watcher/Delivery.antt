-- ===== src/Watcher/Delivery.antt =====
-- pkg/watcher/watcher.go: a running watcher with the jobs of its workers and the database that their
-- handlers write.
pub mod Chain
pub mod Filtering
pub mod Frame
pub mod Flow
pub mod Reached
pub mod Handled
pub mod Waiting
pub mod Settles
pub mod Catchup
pub mod Lossless
use garden_evm_watcher.Common.{
  ℕ, ◌≡◌, ◌<◌, List, [], ◌∷◌, ◌++◌, length, drop, Exec, Option, none, some, Panic, Bool, true,
  false,
}
use garden_evm_watcher.Ethereum.{Log}
use garden_evm_watcher.Watcher.Types.{Watcher, EventJob}
use garden_evm_watcher.Watcher.Worker.{WorkerState, returned_from_worker, crashed_worker, after_job}
use garden_evm_watcher.Watcher.Loop.{selecting}
use garden_evm_watcher.Watcher.System.{
  System, Step, IsAlive, started, without_worker, worker_gives_up,
}

-- `taken` are the jobs that the workers have received and whose handlers have not run, `handled`
-- those whose handlers have, in the order in which they did.
pub record Service (H Db : Type 0) : Type 0 where
  pub system : System H
  pub taken : List (EventJob H)
  pub handled : List (EventJob H)
  pub crash : Option Panic
  pub db : Db

abbrev pub worker_done : {H : Type 0} → WorkerState → System H → System H
worker_done returned_from_worker s = record s { watcher = without_worker s.watcher }
worker_done _ s = s

abbrev pub crash_of : WorkerState → Option Panic
crash_of (crashed_worker p) = some p
crash_of _ = none

-- The step of a worker that gives up belongs to the call of its handler here.
abbrev pub is_cancellation : {H : Type 0} {s t : System H} → Step s t → Bool
is_cancellation worker_gives_up = true
is_cancellation _ = false

module _ {H Db : Type 0} (call : H → Log → Exec Db (Unit {0})) where
  -- What the workers have received in a step.
  abbrev pub arrivals : System H → System H → List (EventJob H)
  arrivals s t = drop (length s.watcher.traffic.received) t.watcher.traffic.received

  -- Where the worker stands after the call of a job's handler.
  abbrev pub worker_state : EventJob H → Db → WorkerState
  worker_state job db = (after_job job (call job.handler job.event db)).0

  -- A step of the watcher, or `job.Handler(ctx, job.Event)` of any job that a worker has: several
  -- workers finish in any order. A call is one step, as it writes to the database once at most. A
  -- worker whose handler returned context.Canceled leaves, and a panic ends the process.
  pub data ServiceStep (v : Service H Db) : Service H Db → Type 0 where
    moves :
        (t : System H)
        → (step : Step v.system t) → is_cancellation step ≡ false
        → ServiceStep v (record v { system = t; taken = v.taken ++ arrivals v.system t })
    handles :
        (xs ys : List (EventJob H)) (job : EventJob H)
        → v.taken ≡ xs ++ job ∷ ys
        → ServiceStep v (record v {
          system = worker_done (worker_state job v.db) v.system;
          taken = xs ++ ys;
          handled = v.handled ++ job ∷ [];
          db = (call job.handler job.event v.db).1;
          crash = crash_of (worker_state job v.db);
        })

  abbrev pub opened : Watcher H → Db → Service H Db
  opened w db = record { system = started w; taken = []; handled = []; crash = none; db = db }

  -- The process has not ended.
  abbrev pub IsUp : Service H Db → Type 0
  IsUp v = (v.crash ≡ none) × IsAlive v.system

  -- The loop selects, the context is not done, a worker is left, and the process goes on.
  pub record IsRunning (v : Service H Db) : Type 0 where
    pub now : v.system.loop ≡ selecting
    pub not_done : v.system.canceled ≡ false
    pub busy : 0 < v.system.watcher.workers
    pub whole : v.crash ≡ none

  -- Any number of steps.
  pub data ServiceFrom (first : Service H Db) : Service H Db → Type 0 where
    at_start : ServiceFrom first first
    after :
        {u v : Service H Db} → ServiceFrom first u → IsUp u → ServiceStep u v → ServiceFrom first v

  abbrev pub ServiceReachable : Watcher H → Db → Service H Db → Type 0
  ServiceReachable w db = ServiceFrom (opened w db)

  pub ServiceFrom-trans :
      (u v x : Service H Db) → ServiceFrom u v → ServiceFrom v x → ServiceFrom u x
  ServiceFrom-trans u v _ f at_start = f
  ServiceFrom-trans u v _ f (after {u = y} g up step) = after (ServiceFrom-trans u v y f g) up step
