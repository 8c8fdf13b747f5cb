-- ===== src/Watcher/Dispatch/Accounting.antt =====
-- What becomes of the jobs of a poll.
use garden_evm_watcher.Common.{
  ℕ, ◌≡◌, refl, sym, ap, subst, ◌∙◌, true, ◌⊎◌, inl, inr, List, [], ◌∷◌, ◌++◌, append_assoc,
  append-nil, some, Dict, Outcome, ok, err, panic, arith, length, take, drop, take-append-drop,
  Interleave, done, left, right, canceled, send_on_closed_channel, found_view, nothing, found,
  failed, crashed, ◌<◌, ◌≤◌,
}
use garden_evm_watcher.Ethereum.{Address, Hash, Log}
use garden_evm_watcher.Watcher.Types.{EventJob, Traffic}
use garden_evm_watcher.Watcher.Dispatch.{
  Moment, now, later, receive, try_send, find_job, and_then, dispatch,
}

module _ {H : Type 0} where
  -- The jobs that the logs call for: one for each log of a watched contract whose first topic has
  -- a handler there.
  abbrev pub job_list : Dict Address (Dict Hash H) → List Log → List (EventJob H)
  job_list table [] = []
  job_list table (log ∷ logs) = elim (find_job table log) [
    | ok (some job) ↦ job ∷ job_list table logs
    | _ ↦ job_list table logs
  ]

  -- Between `q` and `q'` the jobs in `sent` entered the channel and those in `lost` were dropped.
  pub record Accounts (jobs : List (EventJob H)) (q q' : Traffic H) : Type 0 where
    pub sent : List (EventJob H)
    pub lost : List (EventJob H)
    pub shuffle : Interleave sent lost jobs
    pub kept : q'.received ++ q'.queue ≡ (q.received ++ q.queue) ++ sent
    pub warned : q'.dropped ≡ q.dropped ++ lost

  pub receive_keeps :
      (n : ℕ) (q : Traffic H)
      → (receive n q).received ++ (receive n q).queue ≡ q.received ++ q.queue
  unfolding receive
  receive_keeps n q =
      append_assoc q.received (take n q.queue) (drop n q.queue)
      ∙ ap (◌++◌ q.received) (take-append-drop n q.queue)

  pub receive_dropped : (n : ℕ) (q : Traffic H) → (receive n q).dropped ≡ q.dropped
  unfolding receive
  receive_dropped n q = refl

  Accounts-nil : (q : Traffic H) → Accounts [] q q
  Accounts-nil q = record {
    sent = [];
    lost = [];
    shuffle = done;
    kept = sym (append-nil _);
    warned = sym (append-nil _);
  }

  -- The first job goes into the channel, or is dropped; the others follow.
  Accounts-sent :
      (job : EventJob H) (jobs : List (EventJob H)) (p q r : Traffic H)
      → q.received ++ q.queue ≡ (p.received ++ p.queue) ++ job ∷ []
      → q.dropped ≡ p.dropped
      → Accounts jobs q r
      → Accounts (job ∷ jobs) p r
  Accounts-sent job jobs p q r kept warned a = record {
    sent = job ∷ a.sent;
    lost = a.lost;
    shuffle = left a.shuffle;
    kept = a.kept ∙ rw kept (append_assoc (p.received ++ p.queue) (job ∷ []) a.sent);
    warned = rw (← warned) a.warned;
  }

  Accounts-lost :
      (job : EventJob H) (jobs : List (EventJob H)) (p q r : Traffic H)
      → q.received ++ q.queue ≡ p.received ++ p.queue
      → q.dropped ≡ p.dropped ++ job ∷ []
      → Accounts jobs q r
      → Accounts (job ∷ jobs) p r
  Accounts-lost job jobs p q r kept warned a = record {
    sent = a.sent;
    lost = job ∷ a.lost;
    shuffle = right a.shuffle;
    kept = rw (← kept) a.kept;
    warned = a.warned ∙ rw warned (append_assoc p.dropped (job ∷ []) a.lost);
  }

  -- a send that goes on has put its job into the channel or has reported it
  pub try_send-cases :
      (size : ℕ) (m : Moment) (job : EventJob H) (q : Traffic H)
      → ((((m.done ≡ true) × (try_send size m job q ≡ (err canceled, q)))
            ⊎ ((q.closed ≡ true) × (try_send size m job q ≡ (panic send_on_closed_channel, q))))
          ⊎ ((length q.queue < size)
              × (try_send size m job q ≡ (ok tt, record q { queue = q.queue ++ job ∷ [] }))))
        ⊎ ((size ≤ length q.queue)
            × (try_send size m job q ≡ (ok tt, record q { dropped = q.dropped ++ job ∷ [] })))
  unfolding try_send
  try_send-cases size m job q = ground arith

  send-Accounts :
      (size n : ℕ) (m : Moment) (job : EventJob H) (jobs : List (EventJob H))
      (k : Traffic H → Outcome (Unit {0}) × Traffic H)
      → ((r r' : Traffic H) → k r ≡ (ok tt, r') → Accounts jobs r r')
      → (q q' : Traffic H) → and_then (try_send size m job (receive n q)) k ≡ (ok tt, q')
      → Accounts (job ∷ jobs) q q'
  send-Accounts size n m job jobs k rest q q' e = elim (try_send-cases size m job (receive n q)) [
    | inl (inl (inl (_, stopped))) ↦ cc (stopped, e)
    | inl (inl (inr (_, shut))) ↦ cc (shut, e)
    | inl (inr (_, entered)) ↦
        Accounts-sent job jobs q _ q'
          (sym (append_assoc (receive n q).received (receive n q).queue (job ∷ []))
            ∙ ap (λ xs. xs ++ job ∷ []) (receive_keeps n q))
          (receive_dropped n q) (rest _ q' (rw (entered, and_then) at e))
    | inr (_, full) ↦
        Accounts-lost job jobs q _ q' (receive_keeps n q)
          (ap (λ xs. xs ++ job ∷ []) (receive_dropped n q)) (rest _ q' (rw (full, and_then) at e))
  ]

  -- After a pass over the logs that ended without an error, each job of the logs has entered the
  -- channel or was reported as dropped, once and in order, and the channel has lost no job but to
  -- the workers.
  pub dispatch-Accounts :
      (size : ℕ) (table : Dict Address (Dict Hash H)) (logs : List Log) (ms : List Moment)
      (q q' : Traffic H)
      → dispatch size table logs ms q ≡ (ok tt, q')
      → Accounts (job_list table logs) q q'
  unfolding dispatch
  dispatch-Accounts size table [] ms q q' e =
      subst (λ r. Accounts [] q r) (ap (λ r. r.1) e) (Accounts-nil q)
  dispatch-Accounts size table (log ∷ logs) ms q q' e = elim (found_view (find_job table log)) [
    | nothing eq ↦
        rw (eq, job_list) (dispatch-Accounts size table logs ms q q' (rw (eq, dispatch) at e))
    | found job eq ↦
        rw (eq, job_list)
          (send-Accounts size (now ms).receives (now ms) job (job_list table logs)
            (dispatch size table logs (later ms))
            (λ r r'. dispatch-Accounts size table logs (later ms) r r') q q'
            (rw (eq, dispatch) at e))
    | failed x eq ↦ cc (eq, e)
    | crashed p eq ↦ cc (eq, e)
  ]
