-- ===== src/Watcher/Delivery/Handled.antt =====
-- Every job of the scanned blocks, and the database that the handled ones have made.
use garden_evm_watcher.Common.{
  ◌^◌, ◌<◌, ◌≡◌, refl, sym, ap, subst, ◌∙◌, List, [], ◌∷◌, ◌++◌, append_assoc, some, Exec, length,
  drop, drop-append, Perm-of_eq, append-moves,
}
use mathlib.Core.List.{Perm}
use mathlib.Core.List.Perm
use garden_evm_watcher.Ethereum.{Log, EthClient}
use garden_evm_watcher.Watcher.Types.{WatcherConfig, Watcher, EventJob}
use garden_evm_watcher.Watcher.Dispatch.Accounting.{job_list}
use garden_evm_watcher.Watcher.Build.Contracts.{IsBuiltFrom, IsIdle}
use garden_evm_watcher.Watcher.Loop.{selecting, start}
use garden_evm_watcher.Watcher.Worker.{
  run_jobs, WorkerState, working, returned_from_worker, crashed_worker,
}
use garden_evm_watcher.Watcher.System
use garden_evm_watcher.Watcher.System.{System, Step, From, IsAlive, Reachable, started}
use garden_evm_watcher.Watcher.Delivery.{
  Service, ServiceReachable, moves, handles, at_start, after, arrivals, worker_done, worker_state,
}
use garden_evm_watcher.Watcher.Delivery.Chain.{IsNode, between}
use garden_evm_watcher.Watcher.Delivery.Frame.{Step-Follows}
use garden_evm_watcher.Watcher.Delivery.Reached.{Reachable-Flow}

module _ {H : Type 0} where
  worker_done-From :
      (r s : System H) → From r s → IsAlive s → (state : WorkerState) → From r (worker_done state s)
  worker_done-From r s f alive working = f
  worker_done-From r s f alive returned_from_worker = System.after f alive System.worker_gives_up
  worker_done-From r s f alive (crashed_worker p) = f

  worker_done-received :
      (state : WorkerState) (s : System H)
      → (worker_done state s).watcher.traffic.received ≡ s.watcher.traffic.received
  worker_done-received working s = refl
  worker_done-received returned_from_worker s = refl
  worker_done-received (crashed_worker p) s = refl

module _ {H Db : Type 0} (call : H → Log → Exec Db (Unit {0})) where
  run_jobs-append :
      (jobs more : List (EventJob H)) (db : Db)
      → run_jobs call (jobs ++ more) db ≡ run_jobs call more (run_jobs call jobs db)
  unfolding run_jobs
  run_jobs-append [] more db = refl
  run_jobs-append (job ∷ jobs) more db = run_jobs-append jobs more _

  -- The watcher of a service takes its own steps.
  pub system-Reachable :
      (w : Watcher H) (db : Db) (v : Service H Db)
      → ServiceReachable call w db v
      → Reachable w v.system
  system-Reachable w db _ at_start = System.at_start
  system-Reachable w db _ (after {u} r up (moves t step own)) =
      System.after (system-Reachable w db u r) up.1 step
  system-Reachable w db _ (after {u} r up (handles xs ys job e)) =
      worker_done-From (started w) u.system (system-Reachable w db u r) up.1
        (worker_state call job u.db)

  -- In every state that a service reaches, the database is what the handled jobs, in the order in
  -- which they were handled, make of the first one.
  pub handled-run_jobs :
      (w : Watcher H) (db : Db) (v : Service H Db)
      → ServiceReachable call w db v
      → v.db ≡ run_jobs call v.handled db
  unfolding run_jobs
  handled-run_jobs w db _ at_start = refl
  handled-run_jobs w db _ (after {u} r up (moves t step own)) = handled-run_jobs w db u r
  handled-run_jobs w db _ (after {u} r up (handles xs ys job e)) =
      ap (λ d. (call job.handler job.event d).1) (handled-run_jobs w db u r)
      ∙ sym (run_jobs-append u.handled (job ∷ []) db)

  moved-arrivals :
      (s t : System H)
      → Step s t
      → t.watcher.traffic.received ≡ s.watcher.traffic.received ++ arrivals call s t
  moved-arrivals s t step =
      let f = Step-Follows s t step in
      f.arrived
      ∙ ap (λ l. s.watcher.traffic.received ++ l)
          (sym (drop-append s.watcher.traffic.received f.more)
            ∙ ap (drop (length s.watcher.traffic.received)) (sym f.arrived))

  -- What the workers have received, their handlers have run on or will.
  handled-received :
      (w : Watcher H) (db : Db) (v : Service H Db)
      → IsIdle w
      → ServiceReachable call w db v
      → Perm (v.handled ++ v.taken) v.system.watcher.traffic.received
  unfolding started start
  handled-received w db _ idle at_start = Perm-of_eq (sym idle.nothing_received)
  handled-received w db _ idle (after {u} r up (moves t step own)) =
      Perm.trans (Perm-of_eq (sym (append_assoc u.handled u.taken (arrivals call u.system t)))) (
        Perm.trans (Perm.append_right (arrivals call u.system t) (handled-received w db u idle r))
          (Perm-of_eq (sym (moved-arrivals u.system t step))))
  handled-received w db _ idle (after {u} r up (handles xs ys job e)) =
      subst (Perm ((u.handled ++ job ∷ []) ++ (xs ++ ys)))
        (sym (worker_done-received (worker_state call job u.db) u.system))
        (Perm.trans (append-moves u.handled xs ys job) (
          subst (λ l. Perm (u.handled ++ l) u.system.watcher.traffic.received) e
            (handled-received w db u idle r)))

  -- For a built watcher on a node that answers from a chain's logs, whose block numbers and first
  -- block fit an int64: in every state that it reaches, while the loop selects, the jobs whose
  -- handlers have run, those with the workers, those in the channel and those dropped are together,
  -- each exactly once, the jobs of the chain's logs after the first block up to the current one.
  pub service_delivers :
      (client : EthClient) (chain : List Log) (config : WatcherConfig H) (w : Watcher H) (db : Db)
      (v : Service H Db)
      → IsNode client chain
      → IsBuiltFrom config w
      → config.eth_client ≡ some client
      → config.start_block < 2 ^ 63
      → ServiceReachable call w db v
      → v.system.loop ≡ selecting
      → let q = v.system.watcher.traffic in
        Perm (((v.handled ++ v.taken) ++ q.queue) ++ q.dropped) (
          job_list w.address_to_handlers
            (between config.start_block v.system.watcher.current_block chain))
  service_delivers client chain config w db v node built uses small r now =
      let q = v.system.watcher.traffic in
      Perm.trans
        (Perm.append_right q.dropped
          (Perm.append_right q.queue (handled-received w db v built.idle r)))
        (Reachable-Flow client chain node config w built uses small v.system
          (system-Reachable w db v r) now).jobs
