-- ===== src/Watcher/Poll/Step.antt =====
-- What one poll does to the watcher.
use garden_evm_watcher.Common.{
  ℕ, ◌+◌, ◌^◌, ◌≤◌, ◌<◌, pos, [], ◌∷◌, ◌≡◌, ◌≢◌, refl, List, Outcome, ok, err, panic, arith, min,
  dec_lt, view, returned, failed, crashed, pos_part,
}
use garden_evm_watcher.Ethereum.{EthClient, Log, FilterQuery}
use garden_evm_watcher.Watcher.Types.{Watcher, Traffic}
use garden_evm_watcher.Watcher.Dispatch.{Moment}
use garden_evm_watcher.Watcher.Dispatch.Accounting.{job_list, Accounts, dispatch-Accounts}
use garden_evm_watcher.Watcher.Poll.{
  filter_query, with_traffic, advance, process_all_contract_events, poll_client,
}
use garden_evm_watcher.Watcher.Poll.Range.{block_range-none, block_range-some}

module _ {H : Type 0} where
  -- The poll asked for the logs from the next block up to the new current block, no further than
  -- the latest block and the span allow, and accounted for every job of them.
  pub record Advance (client : EthClient) (t : ℕ) (w : Watcher H)
      (p : Outcome (Unit {0}) × Watcher H) : Type 0 where
    pub latest : ℕ
    pub logs : List Log
    pub answered : client.block_number t ≡ ok latest
    pub newer : w.current_block < latest
    pub target : p.1.current_block ≡ min latest (w.current_block + 1 + w.config.max_block_span)
    pub query : FilterQuery
    pub served : client.filter_logs t query ≡ ok logs
    pub addresses : query.addresses ≡ w.addresses
    pub topics : query.topics ≡ w.topics ∷ []
    pub from_block : query.from_block ≡ pos (w.current_block + 1)
    pub to_block : query.to_block ≡ pos p.1.current_block
    pub accounted : Accounts (job_list w.address_to_handlers logs) w.traffic p.1.traffic
    pub fine : p.0 ≡ ok tt

  pub data PollStep (client : EthClient) (t : ℕ) (w : Watcher H)
      (p : Outcome (Unit {0}) × Watcher H) : Type 0 where
    nothing_new :
        (latest : ℕ)
        → client.block_number t ≡ ok latest
        → latest ≤ w.current_block
        → p ≡ (ok tt, w)
        → PollStep client t w p
    refused : p.0 ≢ ok tt → p.1.current_block ≡ w.current_block → PollStep client t w p
    advanced : Advance client t w p → PollStep client t w p

  -- the tail of a poll, from the result of the pass over the logs
  pass-PollStep :
      (client : EthClient) (t : ℕ) (w : Watcher H) (latest : ℕ) (logs : List Log)
      → client.block_number t ≡ ok latest
      → w.current_block < latest
      → latest < 2 ^ 63
      → client.filter_logs t (
          filter_query w
            (w.current_block + 1)
            (min latest (w.current_block + 1 + w.config.max_block_span)))
        ≡ ok logs
      → (d : Outcome (Unit {0}) × Traffic H)
      → ((q' : Traffic H)
          → d ≡ (ok tt, q')
          → Accounts (job_list w.address_to_handlers logs) w.traffic q')
      → PollStep client t w
          (advance (min latest (w.current_block + 1 + w.config.max_block_span)) (with_traffic w d))
  unfolding filter_query
  pass-PollStep client t w latest logs answered newer small served (ok tt, q) acc =
      advanced (record {
        latest = latest;
        logs = logs;
        answered = answered;
        newer = newer;
        target = refl;
        query =
            filter_query w (w.current_block + 1)
              (min latest (w.current_block + 1 + w.config.max_block_span));
        served = served;
        addresses = refl;
        topics = refl;
        from_block = ground (arith, newer, small);
        to_block = ground (arith, newer, small);
        accounted = acc q refl;
        fine = refl;
      })
  pass-PollStep client t w latest logs answered newer small served (err e, q) acc =
      refused (λ eq. cc) refl
  pass-PollStep client t w latest logs answered newer small served (panic x, q) acc =
      refused (λ eq. cc) refl

  range-PollStep :
      (client : EthClient) (t : ℕ) (ms : List Moment) (w : Watcher H) (latest : ℕ)
      → client.block_number t ≡ ok latest
      → w.current_block < latest
      → latest < 2 ^ 63
      → (to_block : ℕ) → to_block ≡ min latest (w.current_block + 1 + w.config.max_block_span)
      → PollStep client t w (
          advance to_block
            (process_all_contract_events client t ms (w.current_block + 1) to_block w))
  unfolding process_all_contract_events
  range-PollStep client t ms w latest answered newer small to_block target =
      rw target (elim (view (client.filter_logs t (filter_query w (w.current_block + 1) goal))) [
        | failed e eq ↦ rw (eq, process_all_contract_events) (refused (λ h. cc) refl)
        | crashed p eq ↦ rw (eq, process_all_contract_events) (refused (λ h. cc) refl)
        | returned logs eq ↦
            rw (eq, process_all_contract_events)
              (pass-PollStep client t w latest logs answered newer small eq _
                (dispatch-Accounts size w.address_to_handlers logs ms w.traffic))
      ])
    where
      goal : ℕ
      goal = min latest (w.current_block + 1 + w.config.max_block_span)

      size : ℕ
      size = pos_part w.config.queue_size

  -- For a node whose block number fits an int64: a poll finds no new block and changes nothing, or
  -- fails and stays at its block, or was served a query with the watcher's addresses, its topics as
  -- alternatives for the first one, and the range from the next block to the new current block,
  -- which is as far as the latest block and the span allow, and accounts for every job of the logs.
  pub poll_client-PollStep :
      (client : EthClient) (t : ℕ) (ms : List Moment) (w : Watcher H)
      → ((n : ℕ) → client.block_number t ≡ ok n → n < 2 ^ 63)
      → PollStep client t w (poll_client client t ms w)
  unfolding poll_client
  poll_client-PollStep client t ms w bound = elim (view (client.block_number t)) [
    | failed e eq ↦ rw (poll_client, eq) (refused (λ h. cc) refl)
    | crashed p eq ↦ rw (poll_client, eq) (refused (λ h. cc) refl)
    | returned latest eq ↦ elim (dec_lt w.current_block latest) [
      | yes newer ↦
          rw
            (
              poll_client,
              eq,
              block_range-some w.current_block latest w.config.max_block_span newer
                  (omega (arith, bound latest eq)),
            )
            (range-PollStep client t ms w latest eq newer (bound latest eq) _ refl)
      | no old ↦
          rw
            (
              poll_client,
              eq,
              block_range-none w.current_block latest w.config.max_block_span (omega arith),
            )
            (nothing_new latest eq (omega arith) refl)
    ]
  ]
