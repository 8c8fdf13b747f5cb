-- ===== src/Ethereum.antt =====
-- The data types of go-ethereum that the program handles: `common.Address`, `common.Hash`,
-- `types.Log` with the fields that are read, `ethereum.FilterQuery`, and the node behind an
-- `ethclient.Client`. The client is no code of the repository: it is a parameter.
use garden_evm_watcher.Common.{ℕ, ℤ, ◌≡◌, Bytes, Outcome, ok, List, [], ◌∷◌, ◌⊎◌, In, All}

abbrev pub Address : Type 0
Address = Bytes

abbrev pub Hash : Type 0
Hash = Bytes

pub record Log : Type 0 where
  pub address : Address
  pub topics : List Hash
  pub payload : Bytes
  pub block_number : ℕ
  pub tx_hash : Hash

pub record FilterQuery : Type 0 where
  pub from_block : ℤ
  pub to_block : ℤ
  pub addresses : List Address
  pub topics : List (List Hash)

-- What the node answers at each moment: `BlockNumber` and `FilterLogs`.
pub record EthClient : Type 0 where
  pub block_number : ℕ → Outcome ℕ
  pub filter_logs : ℕ → FilterQuery → Outcome (List Log)

-- `eth_getLogs`: position i of a log's topics is among the i-th alternatives, and an empty list of
-- alternatives, or of addresses, lets everything through; a log with fewer topics than there are
-- positions is left out.
abbrev pub MatchesTopics : List (List Hash) → List Hash → Type 0
MatchesTopics [] ts = Unit
MatchesTopics ([] ∷ alts) [] = ⊥
MatchesTopics ([] ∷ alts) (t ∷ ts) = MatchesTopics alts ts
MatchesTopics ((a ∷ more) ∷ alts) [] = ⊥
MatchesTopics ((a ∷ more) ∷ alts) (t ∷ ts) = In t (a ∷ more) × MatchesTopics alts ts

pub record MatchesQuery (q : FilterQuery) (l : Log) : Type 0 where
  pub from_address : (q.addresses ≡ []) ⊎ In l.address q.addresses
  pub with_topics : MatchesTopics q.topics l.topics

-- What the watcher relies on: `FilterLogs` returns only logs that match the query.
pub record IsFiltering (c : EthClient) : Type 0 where
  pub matches :
      (t : ℕ) (q : FilterQuery) (ls : List Log)
      → c.filter_logs t q ≡ ok ls
      → All (MatchesQuery q) ls
