-- ===== src/Handlers/Orderbook/Setup.antt =====
-- What OrderbookConfig returns.
use garden_evm_watcher.Common.{◌≡◌, Bytes, Dict, Outcome, ok, arith, lift, continue-ok}
use garden_evm_watcher.Ethereum.{Address, Hash, EthClient}
use garden_evm_watcher.Watcher.Types.{ContractConfig}
use garden_evm_watcher.Handlers.Orderbook.{
  Handler, Globals, assign_abi, orderbook_config, construct_handlers,
}

pub orderbook_config-address :
    (get_abi : Outcome (Dict Bytes Hash)) (addr : Address) (client : EthClient) (s s' : Globals)
    (c : ContractConfig Handler)
    → orderbook_config get_abi addr client s ≡ (ok c, s')
    → c.address ≡ addr
unfolding orderbook_config
orderbook_config-address get_abi addr client s s' c e =
    let (abi, s1, _, rest) =
      continue-ok (assign_abi get_abi s)
        (λ abi. lift (ok (record { address = addr; event_handlers = construct_handlers abi }))) c s'
        e in
    ground (arith, rest)
