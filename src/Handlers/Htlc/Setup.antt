-- ===== src/Handlers/Htlc/Setup.antt =====
-- What HTLCConfig returns, and what it leaves in the package's variables.
use garden_evm_watcher.Common.{
  ◌≡◌, ◌∙◌, ap, Bytes, ascii, bytes_comparable, ◌==◌, if◌then◌else◌, [], Option, none, some, Dict,
  lookup, lookup-insert, ok, arith, view, returned, failed, crashed,
}
use garden_evm_watcher.Ethereum.{Address, Hash, EthClient}
use garden_evm_watcher.Watcher.Types.{ContractConfig}
use garden_evm_watcher.Handlers.Htlc.{
  Handler, initiated, redeemed, refunded, Filterer, Globals, Binding, event_id, assign_abi,
  assign_filterer, construct_handlers, htlc_config,
}

-- The handler of an event ID: where the ABI gives two events one ID, the later entry's.
abbrev pub handler_of : Dict Bytes Hash → Hash → Option Handler
handler_of abi id =
    if event_id abi (ascii "Refunded") == id
    then some refunded
    else if event_id abi (ascii "Redeemed") == id
    then some redeemed
    else if event_id abi (ascii "Initiated") == id
    then some initiated
    else none

construct_handlers-handler_of :
    (abi : Dict Bytes Hash) (id : Hash) → lookup id (construct_handlers abi) ≡ handler_of abi id
unfolding construct_handlers lookup
construct_handlers-handler_of abi id =
    lookup-insert (event_id abi (ascii "Refunded")) id refunded _
    ∙ ap (λ o. if event_id abi (ascii "Refunded") == id then some refunded else o)
        (lookup-insert (event_id abi (ascii "Redeemed")) id redeemed _
          ∙ ap (λ o. if event_id abi (ascii "Redeemed") == id then some redeemed else o)
              (lookup-insert (event_id abi (ascii "Initiated")) id initiated []))

module _ {Contract : Type 0} (b : Binding Contract) where
  -- The configuration watches the given address with a handler for each event ID, and the variables
  -- hold the ABI and a filterer for the contract.
  pub record Configured (addr : Address) (client : EthClient) (c : ContractConfig Handler)
      (s : Globals) : Type 0 where
    pub address : c.address ≡ addr
    pub abi : Dict Bytes Hash
    pub filterer : Filterer
    pub from_binding : (b.get_abi ≡ ok abi) × (b.new_filterer addr client ≡ ok filterer)
    pub variables : (s.garden_htlc_abi ≡ some abi) × (s.garden_htlc_event_filter ≡ some filterer)
    pub table : (id : Hash) → lookup id c.event_handlers ≡ handler_of abi id

  -- When HTLCConfig succeeds, the configuration has the given address and exactly the handlers of
  -- the IDs that the ABI gives to Initiated, Redeemed and Refunded, the zero ID standing for an
  -- event that the ABI lacks and a later one of the three winning if two have one ID; and the
  -- package's variables hold the ABI and a filterer for this address and client.
  pub htlc_config-Configured :
      (addr : Address) (client : EthClient) (s s' : Globals) (c : ContractConfig Handler)
      → htlc_config b addr client s ≡ (ok c, s')
      → Configured addr client c s'
  unfolding htlc_config assign_abi assign_filterer
  htlc_config-Configured addr client s s' c e = elim (view b.get_abi) [
    | failed x no_abi ↦ absurd (ground (arith, e, no_abi))
    | crashed p no_abi ↦ absurd (ground (arith, e, no_abi))
    | returned abi has_abi ↦ elim (view (b.new_filterer addr client)) [
      | failed x no_filterer ↦ absurd (ground (arith, e, has_abi, no_filterer))
      | crashed p no_filterer ↦ absurd (ground (arith, e, has_abi, no_filterer))
      | returned filterer has_filterer ↦
          let events : c.event_handlers ≡ construct_handlers abi =
            ground (arith, e, has_abi, has_filterer) in
          record {
            address = ground (arith, e, has_abi, has_filterer);
            abi = abi;
            filterer = filterer;
            from_binding = (has_abi, has_filterer);
            variables = ground (arith, e, has_abi, has_filterer);
            table = λ id. ap (lookup id) events ∙ construct_handlers-handler_of abi id;
          }
    ]
  ]

  pub htlc_config-address :
      (addr : Address) (client : EthClient) (s s' : Globals) (c : ContractConfig Handler)
      → htlc_config b addr client s ≡ (ok c, s')
      → c.address ≡ addr
  htlc_config-address addr client s s' c e = (htlc_config-Configured addr client s s' c e).address
