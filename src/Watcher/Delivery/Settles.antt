-- ===== src/Watcher/Delivery/Settles.antt =====
-- The workers of a running watcher can always go on to the end of their jobs.
use garden_evm_watcher.Common.{
  ◌<◌, ◌≡◌, refl, sym, ap, ◌∙◌, subst, List, [], ◌∷◌, ◌++◌, append_assoc, append-nil, drop-append,
  none, Exec,
}
use mathlib.Core.List.{Mem, mem-cons_self, mem-cons_of_mem}
use garden_evm_watcher.Ethereum.{Log}
use garden_evm_watcher.Watcher.Types.{EventJob}
use garden_evm_watcher.Watcher.Dispatch.{receive}
use garden_evm_watcher.Watcher.Worker.{run_jobs, working}
use garden_evm_watcher.Watcher.System.{System, IsAlive, worker_receives}
use garden_evm_watcher.Watcher.Delivery.{
  Service, ServiceFrom, IsUp, IsRunning, at_start, moves, handles, after, worker_done, crash_of,
  worker_state,
}

-- The system with these jobs in its channel and received.
abbrev pub holding : {H : Type 0} → System H → List (EventJob H) → List (EventJob H) → System H
holding s queue received = record s {
  watcher = record s.watcher {
    traffic = record s.watcher.traffic { queue = queue; received = received };
  };
}

-- On each of these jobs a worker goes on after the handler, which neither panics nor returns
-- context.Canceled.
abbrev pub Calm : {H Db : Type 0} → (H → Log → Exec Db (Unit {0})) → List (EventJob H) → Type 0
Calm {H} {Db} call jobs =
    (job : EventJob H) → Mem job jobs → (db : Db) → worker_state call job db ≡ working

module _ {H Db : Type 0} (call : H → Log → Exec Db (Unit {0})) (first : Service H Db) where
  abbrev Reached : System H → List (EventJob H) → List (EventJob H) → Db → Type 0
  Reached s taken handled db =
      ServiceFrom call first
        (record { system = s; taken = taken; handled = handled; crash = none; db = db })

  handle_one :
      (s : System H) (job : EventJob H) (jobs handled : List (EventJob H)) (db : Db)
      → IsAlive s
      → worker_state call job db ≡ working
      → Reached s (job ∷ jobs) handled db
      → Reached s jobs (handled ++ job ∷ []) (call job.handler job.event db).1
  handle_one s job jobs handled db alive calm r =
      subst
        (λ state. ServiceFrom call first (record {
          system = worker_done state s;
          taken = jobs;
          handled = handled ++ job ∷ [];
          crash = crash_of state;
          db = (call job.handler job.event db).1;
        }))
        calm (after r (refl, alive) (handles [] jobs job refl))

  -- One after the other, the handlers of the jobs that the workers have.
  handles_all :
      (s : System H) (jobs handled : List (EventJob H)) (db : Db)
      → IsAlive s
      → Calm call jobs
      → Reached s jobs handled db
      → Reached s [] (handled ++ jobs) (run_jobs call jobs db)
  unfolding run_jobs
  handles_all s [] handled db alive calm r =
      subst (λ l. Reached s [] l db) (sym (append-nil handled)) r
  handles_all s (job ∷ jobs) handled db alive calm r =
      subst (λ l. Reached s [] l (run_jobs call (job ∷ jobs) db))
        (append_assoc handled (job ∷ []) jobs)
        (handles_all s jobs (handled ++ job ∷ []) _ alive (λ x m. calm x (mem-cons_of_mem job m))
          (handle_one s job jobs handled db alive (calm job mem-cons_self _) r))

  -- A worker receives a job and runs its handler, until the channel is empty.
  receives_all :
      (s : System H) (queue received handled : List (EventJob H)) (db : Db)
      → IsAlive s
      → 0 < s.watcher.workers
      → Calm call queue
      → Reached (holding s queue received) [] handled db
      → Reached (holding s [] (received ++ queue)) [] (handled ++ queue) (run_jobs call queue db)
  unfolding run_jobs receive
  receives_all s [] received handled db alive busy calm r =
      subst (λ l. Reached (holding s [] l) [] (handled ++ []) db) (sym (append-nil received))
        (subst (λ l. Reached (holding s [] received) [] l db) (sym (append-nil handled)) r)
  receives_all s (job ∷ queue) received handled db alive busy calm r =
      let taken =
        subst (λ l. Reached (holding s queue (received ++ job ∷ [])) l handled db)
          (drop-append received (job ∷ []))
          (after r (refl, alive) (moves _ (worker_receives 1 busy) refl)) in
      let done =
        receives_all s queue (received ++ job ∷ []) (handled ++ job ∷ []) _ alive busy
          (λ x m. calm x (mem-cons_of_mem job m))
          (handle_one (holding s queue (received ++ job ∷ [])) job [] handled db alive
            (calm job mem-cons_self _) taken) in
      subst
        (λ l. Reached (holding s [] l) [] (handled ++ job ∷ queue) (run_jobs call (job ∷ queue) db))
        (append_assoc received (job ∷ []) queue)
        (subst
          (λ l.
            Reached (holding s [] ((received ++ job ∷ []) ++ queue)) [] l
              (run_jobs call (job ∷ queue) db))
          (append_assoc handled (job ∷ []) queue) done)

module _ {H Db : Type 0} (call : H → Log → Exec Db (Unit {0})) where
  -- When only the channel is emptied, the watcher goes on.
  pub settled-IsRunning :
      (v u : Service H Db)
      → IsRunning call v
      → u.system
        ≡ holding v.system [] (v.system.watcher.traffic.received ++ v.system.watcher.traffic.queue)
      → u.crash ≡ none
      → IsRunning call u
  settled-IsRunning v u i same whole = record {
    now = ap (λ s. s.loop) same ∙ i.now;
    not_done = ap (λ s. s.canceled) same ∙ i.not_done;
    busy = subst (λ s. 0 < s.watcher.workers) (sym same) i.busy;
    whole = whole;
  }

  -- From every state with a worker left in which the process goes on, with handlers that neither
  -- panic nor return context.Canceled on the jobs: steps of the workers, one job at a time, lead on
  -- to a state where every job that they had, and then every job of the channel in its order, was
  -- handled, with the effects on the database in that order, and where nothing else of the watcher
  -- is different.
  pub service_settles :
      (v : Service H Db)
      → IsUp call v
      → 0 < v.system.watcher.workers
      → Calm call v.taken
      → Calm call v.system.watcher.traffic.queue
      → let q = v.system.watcher.traffic in
        (u : Service H Db) × ServiceFrom call v u
        × (u.system ≡ holding v.system [] (q.received ++ q.queue))
        × (u.taken ≡ [])
        × (u.crash ≡ none)
        × (u.handled ≡ (v.handled ++ v.taken) ++ q.queue)
        × (u.db ≡ run_jobs call q.queue (run_jobs call v.taken v.db))
  service_settles v up busy taken queued =
      let q = v.system.watcher.traffic in
      let here = subst (λ c. ServiceFrom call v (record v { crash = c })) up.0 at_start in
      (
        _,
        receives_all call v v.system q.queue q.received (v.handled ++ v.taken) _ up.1 busy queued
            (handles_all call v v.system v.taken v.handled v.db up.1 taken here),
        refl,
        refl,
        refl,
        refl,
        refl,
      )
