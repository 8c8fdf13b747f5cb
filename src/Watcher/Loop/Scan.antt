-- ===== src/Watcher/Loop/Scan.antt =====
-- Which blocks a filter query asks for.
use garden_evm_watcher.Common.{ℕ, Bool, false, ◌&&◌, leb, pos, negsuc}
use garden_evm_watcher.Ethereum.{FilterQuery}

-- Does the query ask for block `b`?
abbrev pub covers : FilterQuery → ℕ → Bool
covers q b = elim q.from_block [
  | negsuc n ↦ false
  | pos f ↦ elim q.to_block [ negsuc n ↦ false | pos l ↦ leb f b && leb b l ]
]
