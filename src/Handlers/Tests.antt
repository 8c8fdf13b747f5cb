-- ===== src/Handlers/Tests.antt =====
-- A context and a database in memory, with one swap.
mod Swaps
mod Orders
use garden_evm_watcher.Common.{
  ℕ, pos, ◌≡◌, ◌↔◌, refl, Bytes, ascii, List, [], ◌∷◌, ◌++◌, map, none, some, Outcome, ok, err,
  panic, slice_out_of_range, store_not_in_context, external, wrapped, replicate, length, arith,
  ℕ_discrete, false,
}
use mathlib.Core.List.{Mem, forall_mem-cons, not-mem-nil}
use mathlib.Core.List.Perm
use garden_evm_watcher.Ethereum.{Log, Hash}
use garden_evm_watcher.Watcher.Types.{EventJob}
use garden_evm_watcher.Model.Rows.{Swap, CreateOrder}
use garden_evm_watcher.Store.Gorm.{stamp}
use garden_evm_watcher.Store.Methods.{
  Store, Context, background, with_cancel, store_from_context, context_with_store,
  write_create_order, read_create_order,
}
use garden_evm_watcher.Store.Orders.{Written}
use garden_evm_watcher.Store.Memory.{
  Memory, contains, memory, memory_laws, steady_memory, steady_memory_laws,
  steady_memory-IsReliable,
}

abbrev empty_swap : Bytes → Swap
empty_swap id = record {
  created_at = 0;
  updated_at = 0;
  deleted_at = none;
  swap_id = id;
  chain = [];
  asset = [];
  initiator = [];
  redeemer = [];
  time_lock = none;
  filled_amount = none;
  amount = none;
  secret_hash = [];
  secret = [];
  initiate_tx_hash = [];
  redeem_tx_hash = [];
  refund_tx_hash = [];
  initiate_block_number = none;
  redeem_block_number = none;
  refund_block_number = none;
}

-- One swap, whose ID is the text of the bytes 1, 2.
abbrev database : Memory
database = record { swaps = empty_swap (ascii "0102") ∷ []; orders = []; clock = 9; broken = false }

abbrev ctx : Context (Unit {0})
ctx = with_cancel (context_with_store background (record { db = tt }))

abbrev store : Store (Unit {0})
store = record { db = tt }

ctx_store : store_from_context ctx ≡ ok store
unfolding store_from_context context_with_store
ctx_store = refl

abbrev bare : Context (Unit {0})
bare = with_cancel background

bare_store : store_from_context bare ≡ err store_not_in_context
unfolding store_from_context
bare_store = refl

abbrev log : Log
log = record {
  address = [];
  topics = (1 ∷ 2 ∷ []) ∷ [];
  payload = ascii "secret";
  block_number = 77;
  tx_hash = ascii "tx";
}
