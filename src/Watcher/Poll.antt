-- ===== src/Watcher/Poll.antt =====
-- pkg/watcher/watcher.go: pollEvents and processAllContractEvents.
pub mod Range
pub mod Step
pub mod Frame
pub mod Errors
use garden_evm_watcher.Common.{
  ℕ, ◌+◌, ◌-◌, ◌%◌, ◌^◌, Bool, true, false, if◌then◌else◌, ltb, leb, List, [], ◌∷◌, Option, none,
  some, Outcome, ok, err, panic, nil_pointer, wrapped, pos_part, to_int64, ascii, uint64_mod, Error,
  Panic, Bytes, ◌≡◌, ap,
}
use garden_evm_watcher.Ethereum.{FilterQuery, EthClient, Log}
use garden_evm_watcher.Watcher.Types.{Watcher, Traffic}
use garden_evm_watcher.Watcher.Dispatch.{Moment, dispatch}

-- The blocks from `fromBlock` up to `toBlock`, in uint64; `none` if there is no new block.
unfoldable pub block_range : ℕ → ℕ → ℕ → Option (ℕ × ℕ)
block_range current latest span =
    if leb latest current
    then none
    else let from_block = (current + 1) % uint64_mod in
      if ltb span ((latest + uint64_mod - from_block) % uint64_mod)
      then some (from_block, (from_block + span) % uint64_mod)
      else some (from_block, latest)

module _ {H : Type 0} where
  unfoldable pub filter_query : Watcher H → ℕ → ℕ → FilterQuery
  filter_query w from_block to_block = record {
    from_block = to_int64 from_block;
    to_block = to_int64 to_block;
    addresses = w.addresses;
    topics = w.topics ∷ [];
  }

  abbrev pub with_traffic :
      Watcher H → Outcome (Unit {0}) × Traffic H → Outcome (Unit {0}) × Watcher H
  with_traffic w (r, q) = (r, record w { traffic = q })

  unfoldable pub process_all_contract_events :
      EthClient → ℕ → List Moment → ℕ → ℕ → Watcher H → Outcome (Unit {0}) × Watcher H
  process_all_contract_events client t ms from_block to_block w =
      elim (client.filter_logs t (filter_query w from_block to_block)) [
        | err e ↦ (err (wrapped (ascii "failed to filter logs") e), w)
        | panic p ↦ (panic p, w)
        | ok logs ↦
            with_traffic w
              (dispatch (pos_part w.config.queue_size) w.address_to_handlers logs ms w.traffic)
      ]

  -- w.currentBlock = toBlock, if the events were processed
  abbrev pub advance : ℕ → Outcome (Unit {0}) × Watcher H → Outcome (Unit {0}) × Watcher H
  advance to_block (ok u, w) = (ok tt, record w { current_block = to_block })
  advance to_block (err e, w) = (err e, w)
  advance to_block (panic p, w) = (panic p, w)

  -- `t` is the time of the poll.
  unfoldable pub poll_client :
      EthClient → ℕ → List Moment → Watcher H → Outcome (Unit {0}) × Watcher H
  poll_client client t ms w = elim (client.block_number t) [
    | err e ↦ (err (wrapped (ascii "failed to get latest block number") e), w)
    | panic p ↦ (panic p, w)
    | ok latest ↦ elim (block_range w.current_block latest w.config.max_block_span) [
      | none ↦ (ok tt, w)
      | some (from_block, to_block) ↦
          advance to_block (process_all_contract_events client t ms from_block to_block w)
    ]
  ]

  -- `w.config.EthClient` may be nil.
  unfoldable pub poll_with :
      Option EthClient → ℕ → List Moment → Watcher H → Outcome (Unit {0}) × Watcher H
  poll_with none t ms w = (panic nil_pointer, w)
  poll_with (some client) t ms w = poll_client client t ms w

  unfoldable pub poll_events : ℕ → List Moment → Watcher H → Outcome (Unit {0}) × Watcher H
  unfolding poll_with
  poll_events t ms w = poll_with w.config.eth_client t ms w

  pub poll_events-client :
      (client : EthClient) (t : ℕ) (ms : List Moment) (w : Watcher H)
      → w.config.eth_client ≡ some client
      → poll_events t ms w ≡ poll_client client t ms w
  unfolding poll_events
  poll_events-client client t ms w e = ap (λ c. poll_with c t ms w) e
