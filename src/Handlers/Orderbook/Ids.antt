-- ===== src/Handlers/Orderbook/Ids.antt =====
-- The IDs of create orders.
use garden_evm_watcher.Common.{◌*◌, ◌≡◌, ◌↔◌, ap, ◌∙◌, ◌++◌, length}
use garden_evm_watcher.Ethereum.{Log}
use garden_evm_watcher.Handlers.Hex.{
  encode_to_string, length-encode_to_string, encode_to_string-injective,
}
use garden_evm_watcher.Handlers.Sha256.{sum256, length-sum256}
use garden_evm_watcher.Handlers.Orderbook.{EvmOrder, create_id}

-- The ID of a create order has 64 digits, and two orders have one ID exactly if the SHA-256 digests
-- of their transaction's hash followed by their secret's hash are equal.
pub create_id-sum256 :
    (log log' : Log) (order order' : EvmOrder)
    → (length (create_id log order) ≡ 64)
      × ((create_id log order ≡ create_id log' order') ↔ (
          sum256 (log.tx_hash ++ order.secret_hash) ≡ sum256 (log'.tx_hash ++ order'.secret_hash)))
unfolding create_id
create_id-sum256 log log' order order' = (
  length-encode_to_string (sum256 (log.tx_hash ++ order.secret_hash))
      ∙ ap (λ n. 2 * n) (length-sum256 (log.tx_hash ++ order.secret_hash)),
  (encode_to_string-injective _ _, λ e. ap encode_to_string e),
)
