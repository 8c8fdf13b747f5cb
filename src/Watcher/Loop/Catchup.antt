-- ===== src/Watcher/Loop/Catchup.antt =====
-- The loop over a node that answers.
use garden_evm_watcher.Common.{
  ℕ, suc, ◌+◌, ◌*◌, ◌^◌, ◌≤◌, ◌<◌, ◌≡◌, ◌≢◌, refl, sym, ap, subst, ◌∙◌, false, pos_part, List, [],
  ◌∷◌, some, Outcome, ok, err, panic, arith, min, dec_lt, All, length,
}
use garden_evm_watcher.Ethereum.{
  EthClient, FilterQuery, Log, Hash, MatchesTopics, MatchesQuery, IsFiltering,
}
use garden_evm_watcher.Watcher.Types.{Watcher, Traffic, EventJob}
use garden_evm_watcher.Watcher.Dispatch.{Moment, try_send, receive}
use garden_evm_watcher.Watcher.Dispatch.Faults.{dispatch-ok}
use garden_evm_watcher.Watcher.Dispatch.Capacity.{dispatch-keeps}
use garden_evm_watcher.Watcher.Poll.{
  filter_query, with_traffic, advance, process_all_contract_events, poll_client, poll_events,
  poll_events-client,
}
use garden_evm_watcher.Watcher.Poll.Range.{block_range-none, block_range-some}
use garden_evm_watcher.Watcher.Poll.Frame.{poll_events-SameSetup}
use garden_evm_watcher.Watcher.Loop.{
  LoopEvent, ticked, selecting, after_poll, loop_step, while_selecting, loop,
}

-- From the moment `since` on, the latest block is `latest`, and `FilterLogs` does not fail.
pub record IsSteady (c : EthClient) (since latest : ℕ) : Type 0 where
  pub answers : (t : ℕ) → since ≤ t → c.block_number t ≡ ok latest
  pub serves : (t : ℕ) (q : FilterQuery) → since ≤ t → (ls : List Log) × (c.filter_logs t q ≡ ok ls)

MatchesTopics-bare :
    (topics ts : List Hash) → topics ≢ [] → MatchesTopics (topics ∷ []) ts → ts ≢ []
MatchesTopics-bare [] ts h m = absurd (h refl)
MatchesTopics-bare (a ∷ more) [] h m = absurd m
MatchesTopics-bare (a ∷ more) (t ∷ ts) h m = λ e. cc

All-bare :
    (q : FilterQuery) (topics : List Hash) (ls : List Log)
    → q.topics ≡ topics ∷ []
    → topics ≢ []
    → All (MatchesQuery q) ls
    → All (λ l. l.topics ≢ []) ls
All-bare q topics [] e h a = tt
All-bare q topics (l ∷ ls) e h a = (
  MatchesTopics-bare topics l.topics h
      (subst (λ ts. MatchesTopics ts l.topics) e (a.0).with_topics),
  All-bare q topics ls e h a.1,
)

-- Ticks at any times from `since` on, while the context is not done.
abbrev pub Ticks : ℕ → List LoopEvent → Type 0
Ticks since [] = Unit
Ticks since (LoopEvent.ticked t ms ∷ es) =
    (since ≤ t) × (All (λ m. m.done ≡ false) ms × Ticks since es)
Ticks since (_ ∷ es) = ⊥

catch_up_sum :
    (latest current span n next span' : ℕ)
    → next ≡ min latest (current + 1 + span)
    → span' ≡ span
    → min latest (next + n * (span' + 1)) ≡ min latest (current + suc n * (span + 1))
catch_up_sum latest current span n next span' e s = rw (e, s) (grind arith)

module _ {H : Type 0} where
  -- The logs of a watcher's query have topics, if the watcher has topics.
  pub filter_logs-topics :
      (client : EthClient) (t f to_block : ℕ) (w : Watcher H) (ls : List Log)
      → IsFiltering client
      → w.topics ≢ []
      → client.filter_logs t (filter_query w f to_block) ≡ ok ls
      → All (λ l. l.topics ≢ []) ls
  unfolding filter_query
  filter_logs-topics client t f to_block w ls filtering h e =
      All-bare (filter_query w f to_block) w.topics ls refl h
        (filtering.matches t (filter_query w f to_block) ls e)

  closed-try_send :
      (size : ℕ) (m : Moment) (job : EventJob H) (q : Traffic H)
      → q.closed ≡ false
      → (try_send size m job (receive m.receives q)).1.closed ≡ false
  unfolding try_send receive
  closed-try_send size m job q h = ground arith

  -- A step of a healthy loop: no error, the channel stays open, the block moves to `b`.
  record Moves (b : ℕ) (p : Outcome (Unit {0}) × Watcher H) : Type 0 where
    fine : p.0 ≡ ok tt
    at_block : p.1.current_block ≡ b
    still_open : p.1.traffic.closed ≡ false

  after_poll-ok :
      (p : Outcome (Unit {0}) × Watcher H) → p.0 ≡ ok tt → after_poll p ≡ (selecting, p.1)
  unfolding after_poll
  after_poll-ok (ok tt, w) h = refl
  after_poll-ok (err e, w) h = cc
  after_poll-ok (panic p, w) h = cc

  advance-Moves :
      (b : ℕ) (w : Watcher H) (d : Outcome (Unit {0}) × Traffic H)
      → d.0 ≡ ok tt
      → d.1.closed ≡ false
      → Moves b (advance b (with_traffic w d))
  advance-Moves b w (ok tt, q) h o = record { fine = refl; at_block = refl; still_open = o }
  advance-Moves b w (err e, q) h o = cc
  advance-Moves b w (panic p, q) h o = cc

  module _ (client : EthClient) (since latest : ℕ) (filtering : IsFiltering client)
      (steady : IsSteady client since latest) (small : latest < 2 ^ 63) where
    process-Moves :
        (t : ℕ) (ms : List Moment) (f b : ℕ) (w : Watcher H)
        → since ≤ t
        → w.topics ≢ []
        → All (λ m. m.done ≡ false) ms
        → w.traffic.closed ≡ false
        → Moves b (advance b (process_all_contract_events client t ms f b w))
    unfolding process_all_contract_events
    process-Moves t ms f b w u h d o =
        let (ls, eq) = steady.serves t (filter_query w f b) u in
        rw (eq, process_all_contract_events)
          (advance-Moves b w _
            (dispatch-ok size w.address_to_handlers ls ms w.traffic
              (filter_logs-topics client t f b w ls filtering h eq) d o)
            (dispatch-keeps (λ q. q.closed ≡ false) size (closed-try_send size)
              w.address_to_handlers ls ms w.traffic o))
      where
        size : ℕ
        size = pos_part w.config.queue_size

    poll_client-Moves :
        (t : ℕ) (ms : List Moment) (w : Watcher H)
        → since ≤ t
        → w.topics ≢ []
        → All (λ m. m.done ≡ false) ms
        → w.traffic.closed ≡ false
        → w.current_block ≤ latest
        → Moves
            (min latest (w.current_block + 1 + w.config.max_block_span))
            (poll_client client t ms w)
    unfolding poll_client
    poll_client-Moves t ms w u h d o le = elim (dec_lt w.current_block latest) [
      | yes newer ↦
          rw
            (
              poll_client,
              steady.answers t u,
              block_range-some w.current_block latest w.config.max_block_span newer (omega arith),
            )
            (process-Moves t ms (w.current_block + 1) _ w u h d o)
      | no old ↦
          rw
            (
              poll_client,
              steady.answers t u,
              block_range-none w.current_block latest w.config.max_block_span (omega arith),
            )
            (record { fine = refl; at_block = omega arith; still_open = o })
    ]

    poll_events-Moves :
        (t : ℕ) (ms : List Moment) (w : Watcher H)
        → since ≤ t
        → w.config.eth_client ≡ some client
        → w.topics ≢ []
        → All (λ m. m.done ≡ false) ms
        → w.traffic.closed ≡ false
        → w.current_block ≤ latest
        → Moves (min latest (w.current_block + 1 + w.config.max_block_span)) (poll_events t ms w)
    poll_events-Moves t ms w u e h d o le =
        rw (poll_events-client client t ms w e) (poll_client-Moves t ms w u h d o le)

    -- With a node that filters as asked and from some moment on answers and has `latest` as its
    -- last block, an int64, and a watcher that has topics, an open channel and a current block up
    -- to `latest`: n ticks after this moment, without a cancelled context, move the current block
    -- by up to n * (span + 1) blocks, and not past `latest`; the loop goes on.
    pub loop_catches_up :
        (es : List LoopEvent) (w : Watcher H)
        → w.config.eth_client ≡ some client
        → w.topics ≢ []
        → w.traffic.closed ≡ false
        → w.current_block ≤ latest
        → Ticks since es
        → ((loop es w).0 ≡ selecting)
          × ((loop es w).1.current_block
              ≡ min latest (w.current_block + length es * (w.config.max_block_span + 1)))
    unfolding loop loop_step
    loop_catches_up [] w e h o le ticks = (refl, omega arith)
    loop_catches_up (LoopEvent.ctx_done ∷ es) w e h o le ticks = absurd ticks
    loop_catches_up (LoopEvent.quit_closed ∷ es) w e h o le ticks = absurd ticks
    loop_catches_up (ticked t ms ∷ es) w e h o le ticks =
        let moves = poll_events-Moves t ms w ticks.0 e h ticks.1.0 o le in
        let same = poll_events-SameSetup t ms w in
        let (on, here) =
          loop_catches_up es (poll_events t ms w).1 (ap (λ c. c.eth_client) same.config ∙ e)
            (λ x. h (sym same.topics ∙ x)) moves.still_open (omega (arith, moves.at_block))
            ticks.1.1 in
        rw (after_poll-ok (poll_events t ms w) moves.fine, while_selecting)
          (
            on,
            here
                ∙ catch_up_sum latest w.current_block w.config.max_block_span (length es) _ _
                    moves.at_block (ap (λ c. c.max_block_span) same.config),
          )
