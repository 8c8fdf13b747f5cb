-- ===== src/Watcher/Delivery/Flow.antt =====
-- Where the jobs of the scanned blocks are, while the loop of a started watcher goes on.
use garden_evm_watcher.Common.{
  ℕ, ◌+◌, ◌^◌, ◌≤◌, ◌<◌, ◌≡◌, ◌≢◌, refl, sym, ap, ap₂, subst, ◌∙◌, List, [], ◌∷◌, ◌++◌, some,
  Outcome, ok, err, panic, Error, canceled, arith, Interleave, Interleave-Perm, Perm-of_eq,
  append_exchange,
}
use mathlib.Core.List.{Perm}
use mathlib.Core.List.Perm
use garden_evm_watcher.Ethereum.{Log, EthClient, FilterQuery}
use garden_evm_watcher.Watcher.Types.{WatcherConfig, Watcher, Traffic, EventJob}
use garden_evm_watcher.Watcher.Dispatch.{Moment}
use garden_evm_watcher.Watcher.Dispatch.Accounting.{job_list, Accounts}
use garden_evm_watcher.Watcher.Build.Contracts.{IsBuiltFrom}
use garden_evm_watcher.Watcher.Poll.{filter_query, poll_client, poll_events, poll_events-client}
use garden_evm_watcher.Watcher.Poll.Step.{
  Advance, PollStep, nothing_new, refused, advanced, poll_client-PollStep,
}
use garden_evm_watcher.Watcher.Poll.Errors.{poll_client-unchanged}
use garden_evm_watcher.Watcher.Loop.{selecting, after_poll, leave}
use garden_evm_watcher.Watcher.Delivery.Chain.{IsNode, between, jobs-between, select, jobs-select}
use garden_evm_watcher.Watcher.Delivery.Frame.{Follows}

same_select :
    (q r : FilterQuery) (chain : List Log)
    → q.addresses ≡ r.addresses
    → q.topics ≡ r.topics
    → q.from_block ≡ r.from_block
    → q.to_block ≡ r.to_block
    → select q chain ≡ select r chain
same_select q r chain a t f l = rw (a, t, f, l) refl

module _ {H : Type 0} where
  -- The jobs with the workers, those in the channel, and those that were dropped.
  abbrev pub all_jobs : Traffic H → List (EventJob H)
  all_jobs q = (q.received ++ q.queue) ++ q.dropped

  -- The jobs of the blocks after the first one, up to the current block, are with the workers, in
  -- the channel or among those that were dropped.
  pub record Flow (w : Watcher H) (first : ℕ) (chain : List Log) (v : Watcher H) : Type 0 where
    pub forward : first ≤ v.current_block
    pub small : v.current_block < 2 ^ 63
    pub jobs :
        Perm
          (all_jobs v.traffic)
          (job_list w.address_to_handlers (between first v.current_block chain))

  pub Flow-same :
      (w : Watcher H) (first : ℕ) (chain : List Log) (u v : Watcher H)
      → (v.current_block ≡ u.current_block)
        × (v.traffic.received ++ v.traffic.queue ≡ u.traffic.received ++ u.traffic.queue)
        × (v.traffic.dropped ≡ u.traffic.dropped)
      → Flow w first chain u
      → Flow w first chain v
  Flow-same w first chain u v (block, kept, dropped) f = record {
    forward = omega (arith, block, f.forward);
    small = omega (arith, block, f.small);
    jobs = rw (kept, dropped, block) f.jobs;
  }

  -- The jobs `new` of a poll join the others.
  joined :
      (q q' : Traffic H) (old new all : List (EventJob H))
      → Perm (all_jobs q) old
      → Accounts new q q'
      → Interleave old new all
      → Perm (all_jobs q') all
  joined q q' old new all p a i = Perm.trans (Perm-of_eq (ap₂ ◌++◌ a.kept a.warned)) (
      Perm.trans (append_exchange (q.received ++ q.queue) a.sent q.dropped a.lost)
        (Perm.trans (Perm.append p (Interleave-Perm a.shuffle)) (Interleave-Perm i)))

  module _ (client : EthClient) (chain : List Log) (node : IsNode client chain)
      (config : WatcherConfig H) (w : Watcher H) (built : IsBuiltFrom config w) where
    abbrev jobs : ℕ → ℕ → List (EventJob H)
    jobs a b = job_list w.address_to_handlers (between a b chain)

    served-jobs :
        (t : ℕ) (v : Watcher H) (p : Outcome (Unit {0}) × Watcher H)
        → Follows w v
        → (a : Advance client t v p)
        → (a.logs ≡ select (filter_query w (v.current_block + 1) p.1.current_block) chain)
          × (v.current_block < p.1.current_block)
          × (p.1.current_block < 2 ^ 63)
    unfolding filter_query
    served-jobs t v p f a =
        let fits = node.fits t a.latest a.answered in
        let newer = a.newer in
        let target = a.target in
        let answer =
          node.answers t a.latest (v.current_block + 1) p.1.current_block a.query a.logs a.answered
            a.from_block a.to_block (omega arith) a.served in
        (
          answer
              ∙ same_select a.query (filter_query w (v.current_block + 1) p.1.current_block) chain
                  (a.addresses ∙ f.addresses) (a.topics ∙ ap (λ ts. ts ∷ []) f.topics)
                  (a.from_block ∙ ground arith) (a.to_block ∙ ground arith),
          omega arith,
          omega arith,
        )

    advanced-Flow :
        (first t : ℕ) (v : Watcher H) (p : Outcome (Unit {0}) × Watcher H)
        → Follows w v
        → Flow w first chain v
        → Advance client t v p
        → Flow w first chain p.1
    advanced-Flow first t v p f flow a =
        let (logs, up, small) = served-jobs t v p f a in
        record {
          forward = omega (arith, flow.forward, up);
          small = small;
          jobs =
              joined v.traffic p.1.traffic (jobs first v.current_block)
                (job_list v.address_to_handlers a.logs) (jobs first p.1.current_block) flow.jobs
                a.accounted
                (subst
                  (λ js. Interleave (jobs first v.current_block) js (jobs first p.1.current_block))
                  (sym (
                    ap₂ job_list f.table logs
                    ∙ jobs-select config w v.current_block p.1.current_block chain built up small))
                  (jobs-between w.address_to_handlers first v.current_block p.1.current_block chain
                    flow.forward (omega (arith, up))));
        }

    polled-Flow :
        (first t : ℕ) (v : Watcher H) (p : Outcome (Unit {0}) × Watcher H)
        → Follows w v
        → Flow w first chain v
        → PollStep client t v p
        → p.0 ≡ ok tt
        → Flow w first chain p.1
    polled-Flow first t v p f flow (nothing_new latest _ _ same) e =
        subst (λ r. Flow w first chain r.1) (sym same) flow
    polled-Flow first t v p f flow (refused bad _) e = absurd (bad e)
    polled-Flow first t v p f flow (advanced a) e = advanced-Flow first t v p f flow a

    going_on-Flow :
        (first t : ℕ) (v : Watcher H) (p : Outcome (Unit {0}) × Watcher H)
        → Follows w v
        → Flow w first chain v
        → PollStep client t v p
        → ((e : Error) → e ≢ canceled → p.0 ≡ err e → p.1 ≡ v)
        → (after_poll p).0 ≡ selecting
        → Flow w first chain (after_poll p).1
    unfolding after_poll leave
    going_on-Flow first t v (ok tt, u) f flow s same e =
        polled-Flow first t v (ok tt, u) f flow s refl
    going_on-Flow first t v (err canceled, u) f flow s same e = cc
    going_on-Flow first t v (err x, u) f flow s same e =
        subst (Flow w first chain) (sym (same x (λ h. cc) refl)) flow
    going_on-Flow first t v (panic x, u) f flow s same e = cc

    pub poll-Flow :
        (first t : ℕ) (ms : List Moment) (v : Watcher H)
        → config.eth_client ≡ some client
        → Follows w v
        → Flow w first chain v
        → (after_poll (poll_events t ms v)).0 ≡ selecting
        → Flow w first chain (after_poll (poll_events t ms v)).1
    poll-Flow first t ms v uses f flow e =
        let same =
          poll_events-client client t ms v
            (ap (λ c. c.eth_client) (f.config ∙ built.same_config) ∙ uses) in
        subst (λ p. Flow w first chain (after_poll p).1) (sym same)
          (going_on-Flow first t v (poll_client client t ms v) f flow
            (poll_client-PollStep client t ms v (λ n h. node.fits t n h))
            (poll_client-unchanged client t ms v) (ap (λ p. (after_poll p).0) (sym same) ∙ e))
