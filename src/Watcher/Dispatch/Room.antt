-- ===== src/Watcher/Dispatch/Room.antt =====
-- A pass while nothing goes wrong.
use garden_evm_watcher.Common.{
  ℕ, ◌+◌, ◌≤◌, ◌≡◌, ◌≢◌, refl, sym, ap, subst, ◌∙◌, false, List, [], ◌∷◌, ◌++◌, Dict, ok, arith,
  length, length-append, Interleave, done, left, All,
}
use garden_evm_watcher.Ethereum.{Address, Hash, Log}
use garden_evm_watcher.Watcher.Types.{EventJob, Traffic}
use garden_evm_watcher.Watcher.Dispatch.{Moment, dispatch}
use garden_evm_watcher.Watcher.Dispatch.Accounting.{job_list, Accounts, dispatch-Accounts}
use garden_evm_watcher.Watcher.Dispatch.Capacity.{dispatch_no_loss}
use garden_evm_watcher.Watcher.Dispatch.Faults.{dispatch-ok}

nil-of_append : {A : Type 0} (xs ys : List A) → xs ≡ xs ++ ys → ys ≡ []
nil-of_append xs [] e = refl
nil-of_append xs (y ∷ ys) e = absurd (omega (arith, ap length e, length-append xs (y ∷ ys)))

Interleave-all_left : {A : Type 0} {xs zs : List A} → Interleave xs [] zs → xs ≡ zs
Interleave-all_left done = refl
Interleave-all_left (left {x} i) = ap (λ l. x ∷ l) (Interleave-all_left i)

module _ {H : Type 0} where
  sends_all :
      (jobs : List (EventJob H)) (q q' : Traffic H)
      → Accounts jobs q q'
      → q'.dropped ≡ q.dropped
      → q'.received ++ q'.queue ≡ (q.received ++ q.queue) ++ jobs
  sends_all jobs q q' a same =
      let none_lost = nil-of_append q.dropped a.lost (sym same ∙ a.warned) in
      a.kept
      ∙ ap (λ l. (q.received ++ q.queue) ++ l)
          (Interleave-all_left (subst (λ l. Interleave a.sent l jobs) none_lost a.shuffle))

  -- While the context is not done, the channel is open and has room for every job of the logs, and
  -- all logs have topics, a pass ends without an error and is equivalent to appending the jobs of
  -- the logs to the channel, in order: nothing is dropped, and what the workers have received with
  -- what is in the channel is as before with these jobs behind it.
  pub dispatch-job_list :
      (size : ℕ) (table : Dict Address (Dict Hash H)) (logs : List Log) (ms : List Moment)
      (q : Traffic H)
      → All (λ l. l.topics ≢ []) logs
      → All (λ m. m.done ≡ false) ms
      → q.closed ≡ false
      → length q.queue + length (job_list table logs) ≤ size
      → let p = dispatch size table logs ms q in
        (p.0 ≡ ok tt)
        × (p.1.dropped ≡ q.dropped)
        × (p.1.received ++ p.1.queue ≡ (q.received ++ q.queue) ++ job_list table logs)
  dispatch-job_list size table logs ms q named calm still_open room =
      let fine = dispatch-ok size table logs ms q named calm still_open in
      let same = dispatch_no_loss size table logs ms q room in
      (
        fine,
        same,
        sends_all (job_list table logs) q (dispatch size table logs ms q).1
            (dispatch-Accounts size table logs ms q _
              (ap (λ r. (r, (dispatch size table logs ms q).1)) fine))
            same,
      )
