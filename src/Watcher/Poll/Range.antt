-- ===== src/Watcher/Poll/Range.antt =====
-- The block range of one poll.
use garden_evm_watcher.Common.{ℕ, ◌+◌, ◌≤◌, ◌<◌, ◌≡◌, none, some, arith, uint64_mod, min}
use garden_evm_watcher.Watcher.Poll.{block_range}

pub block_range-none : (c l s : ℕ) → l ≤ c → block_range c l s ≡ none
unfolding block_range
block_range-none c l s h = ground arith

-- what one poll scans, in numbers that do not wrap
pub block_range-some :
    (c l s : ℕ) → c < l → l < uint64_mod → block_range c l s ≡ some (c + 1, min l (c + 1 + s))
unfolding block_range
block_range-some c l s h b = ground arith
