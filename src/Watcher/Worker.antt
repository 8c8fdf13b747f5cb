-- ===== src/Watcher/Worker.antt =====
-- pkg/watcher/watcher.go: a worker goroutine. `Db` is what the handlers read and write; a handler
-- is called by `call`.
use garden_evm_watcher.Common.{
  List, [], ◌∷◌, map, Outcome, ok, err, panic, Panic, canceled, index_out_of_range, Exec, ◌≡◌, ◌≢◌,
  refl, ap, All,
}
use garden_evm_watcher.Ethereum.{Log, Hash}
use garden_evm_watcher.Watcher.Types.{EventJob}

-- What a round of the worker's `select` finds.
pub data WorkerEvent (H : Type 0) : Type 0 where
  ctx_done : WorkerEvent H
  received : EventJob H → WorkerEvent H
  queue_closed : WorkerEvent H

pub data WorkerState : Type 0 where
  working : WorkerState
  returned_from_worker : WorkerState
  crashed_worker : Panic → WorkerState

-- The error message reads `job.Event.Topics[0]`.
unfoldable pub log_error : List Hash → WorkerState
log_error [] = crashed_worker index_out_of_range
log_error (topic ∷ topics) = working

log_error-working : (ts : List Hash) → ts ≢ [] → log_error ts ≡ working
unfolding log_error
log_error-working [] h = absurd (h refl)
log_error-working (t ∷ ts) h = refl

module _ {H Db : Type 0} where
  unfoldable pub after_job : EventJob H → Outcome (Unit {0}) × Db → WorkerState × Db
  unfolding log_error
  after_job job (ok u, db) = (working, db)
  after_job job (err canceled, db) = (returned_from_worker, db)
  after_job job (err e, db) = (log_error job.event.topics, db)
  after_job job (panic p, db) = (crashed_worker p, db)

abbrev pub while_working :
    {Db : Type 0} → WorkerState × Db → (Db → WorkerState × Db) → WorkerState × Db
while_working (working, db) k = k db
while_working (s, db) k = (s, db)

module _ {H Db : Type 0} (call : H → Log → Exec Db (Unit {0})) where
  unfoldable pub worker : List (WorkerEvent H) → Db → WorkerState × Db
  unfolding after_job
  worker [] db = (working, db)
  worker (ctx_done ∷ es) db = (returned_from_worker, db)
  worker (queue_closed ∷ es) db = (returned_from_worker, db)
  worker (received job ∷ es) db =
      while_working (after_job job (call job.handler job.event db)) (worker es)

  -- The effects of jobs on the database, in the order in which their handlers run.
  unfoldable pub run_jobs : List (EventJob H) → Db → Db
  run_jobs [] db = db
  run_jobs (job ∷ jobs) db = run_jobs jobs (call job.handler job.event db).1

  -- A job that its handler neither cancels nor crashes on, and whose log has topics.
  pub record IsCalm (job : EventJob H) : Type 0 where
    pub not_canceled : (db : Db) → (call job.handler job.event db).0 ≢ err canceled
    pub no_panic : (db : Db) (p : Panic) → (call job.handler job.event db).0 ≢ panic p
    pub topics : job.event.topics ≢ []

  pub after_job-ok :
      (job : EventJob H) (r : Outcome (Unit {0}) × Db) → r.0 ≡ ok tt → (after_job job r).0 ≡ working
  unfolding after_job
  after_job-ok job (ok tt, db) e = refl
  after_job-ok job (err x, db) e = cc
  after_job-ok job (panic p, db) e = cc

  after_job-calm :
      (job : EventJob H) (r : Outcome (Unit {0}) × Db)
      → job.event.topics ≢ []
      → r.0 ≢ err canceled
      → ((p : Panic) → r.0 ≢ panic p)
      → after_job job r ≡ (working, r.1)
  unfolding after_job
  after_job-calm job (ok tt, db) t c n = refl
  after_job-calm job (err canceled, db) t c n = absurd (c refl)
  after_job-calm job (panic p, db) t c n = absurd (n p refl)
  after_job-calm job (err e, db) t c n = ap (λ s. (s, db)) (log_error-working job.event.topics t)

  -- A worker that receives jobs whose logs have topics, and whose handlers neither return
  -- context.Canceled nor panic, runs them all in order, whatever other errors they end with.
  pub worker-run_jobs :
      (jobs : List (EventJob H)) (db : Db)
      → All IsCalm jobs
      → worker (map received jobs) db ≡ (working, run_jobs jobs db)
  unfolding worker run_jobs
  worker-run_jobs [] db a = refl
  worker-run_jobs (job ∷ jobs) db a =
      rw
        (
          after_job-calm job (call job.handler job.event db) (a.0).topics ((a.0).not_canceled db)
              ((a.0).no_panic db),
          while_working,
        )
        (worker-run_jobs jobs _ a.1)
