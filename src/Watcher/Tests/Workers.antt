-- ===== src/Watcher/Tests/Workers.antt =====
-- A worker on concrete jobs.
use garden_evm_watcher.Common.{
  ℕ, ◌+◌, ◌≡◌, refl, ascii, [], ◌∷◌, err, bytes_comparable, Exec, external,
}
use garden_evm_watcher.Ethereum.{Log}
use garden_evm_watcher.Watcher.Worker.{
  received, worker, run_jobs, IsCalm, working, worker-run_jobs, after_job, log_error,
}
use garden_evm_watcher.Watcher.Tests.{job_at}

-- A handler that counts the events, and reports an error for its own number.
abbrev count_call : ℕ → Log → Exec ℕ (Unit {0})
count_call h log n = (err (external (ascii "handler failed")), n + h)

worker_counts : worker count_call (received (job_at 1) ∷ received (job_at 2) ∷ []) 0 ≡ (working, 14)
unfolding worker after_job log_error
worker_counts = refl

job-IsCalm : (n : ℕ) → IsCalm count_call (job_at n)
job-IsCalm n = record { not_canceled = λ db e. cc; no_panic = λ db p e. cc; topics = λ e. cc }

worker-run_jobs_example :
    worker count_call (received (job_at 1) ∷ received (job_at 2) ∷ []) 0
    ≡ (working, run_jobs count_call (job_at 1 ∷ job_at 2 ∷ []) 0)
worker-run_jobs_example =
    worker-run_jobs count_call (job_at 1 ∷ job_at 2 ∷ []) 0 (job-IsCalm 1, (job-IsCalm 2, tt))
