-- ===== src/Builder/Setup.antt =====
-- Which watchers setupWatchers makes.
use garden_evm_watcher.Common.{
  ◌≡◌, refl, sym, subst, ◌∙◌, Bytes, bytes_comparable, ◌==◌, List, [], ◌∷◌, ◌++◌, append_assoc,
  append-nil, replicate, Dict, Outcome, ok, err, panic, arith, continue-ok, continue, lift, ◌>>=◌,
  Bool, true, false, if◌then◌else◌,
}
use garden_evm_watcher.Ethereum.{EthClient}
use garden_evm_watcher.Watcher.Types.{ContractConfig, WatcherConfig, Watcher}
use garden_evm_watcher.Watcher.Build.{new_watcher}
use garden_evm_watcher.Watcher.Build.Contracts.{IsBuiltFrom}
use garden_evm_watcher.Watcher.Build.Validation.{new_watcher_correct}
use garden_evm_watcher.Config.{AbiType, garden_htlc, orderbook, ChainConfig, Config}
use garden_evm_watcher.Handlers.Htlc
use garden_evm_watcher.Handlers.Htlc.{htlc_config}
use garden_evm_watcher.Handlers.Orderbook
use garden_evm_watcher.Handlers.Orderbook.{orderbook_config}
use garden_evm_watcher.Builder.{
  Handler, Globals, Outside, of_htlc, of_orderbook, tag, on_htlc, on_orderbook, empty_config,
  watcher_config, contract_handler, add_contracts, get_config, add_chains, setup_watchers,
}

module _ {Contract : Type 0} (o : Outside Contract) where
  -- What a configured contract is watched with, by its type: the configuration that
  -- OrderbookConfig or HTLCConfig makes for its address on the chain's node, with its handlers; or,
  -- for any other type, the empty configuration.
  pub data Configured (client : EthClient) (addr : Bytes) (abi_type : AbiType)
      (c : ContractConfig Handler) : Type 0 where
    by_orderbook :
        (s s' : Orderbook.Globals) (made : ContractConfig Orderbook.Handler)
        → (abi_type == orderbook) ≡ true
        → orderbook_config o.orderbook_abi (o.hex_to_address addr) client s ≡ (ok made, s')
        → c ≡ tag of_orderbook made
        → Configured client addr abi_type c
    by_htlc :
        (s s' : Htlc.Globals) (made : ContractConfig Htlc.Handler)
        → (abi_type == garden_htlc) ≡ true
        → htlc_config o.htlc_binding (o.hex_to_address addr) client s ≡ (ok made, s')
        → c ≡ tag of_htlc made
        → Configured client addr abi_type c
    by_neither :
        (abi_type == orderbook) ≡ false
        → (abi_type == garden_htlc) ≡ false
        → c.address ≡ replicate 20 0
        → c.event_handlers ≡ []
        → Configured client addr abi_type c

  -- Each contract in order.
  pub data AllConfigured (client : EthClient)
      : Dict Bytes AbiType → List (ContractConfig Handler) → Type 0 where
    no_contract : AllConfigured client [] []
    and_contract :
        {addr : Bytes} {abi_type : AbiType} {cs : Dict Bytes AbiType} {c : ContractConfig Handler}
        {hs : List (ContractConfig Handler)}
        → Configured client addr abi_type c
        → AllConfigured client cs hs
        → AllConfigured client ((addr, abi_type) ∷ cs) (c ∷ hs)

  -- The watchers of the chains, one for each and in order: each reads from the node of its chain's
  -- URL and watches its chain's contracts.
  pub data Made : Dict Bytes ChainConfig → List (Watcher Handler) → Type 0 where
    none_left : Made [] []
    one_more :
        {name : Bytes} {chain : ChainConfig} {chains : Dict Bytes ChainConfig} {w : Watcher Handler}
        {ws : List (Watcher Handler)} (client : EthClient)
        (handlers : List (ContractConfig Handler))
        → o.dial chain.url ≡ ok client
        → AllConfigured client chain.contracts handlers
        → IsBuiltFrom (watcher_config chain client handlers) w
        → Made chains ws
        → Made ((name, chain) ∷ chains) (w ∷ ws)

  on_htlc-ok :
      (s s' : Globals) (r : Outcome (ContractConfig Htlc.Handler) × Htlc.Globals)
      (c : ContractConfig Handler)
      → on_htlc s (continue r (λ c. lift (ok (tag of_htlc c)))) ≡ (ok c, s')
      → (c' : ContractConfig Htlc.Handler) × (h : Htlc.Globals) × (r ≡ (ok c', h))
        × (c ≡ tag of_htlc c')
  on_htlc-ok s s' (ok c', h) c e = (c', h, refl, ground (arith, e))
  on_htlc-ok s s' (err x, h) c e = cc
  on_htlc-ok s s' (panic x, h) c e = cc

  on_orderbook-ok :
      (s s' : Globals) (r : Outcome (ContractConfig Orderbook.Handler) × Orderbook.Globals)
      (c : ContractConfig Handler)
      → on_orderbook s (continue r (λ c. lift (ok (tag of_orderbook c)))) ≡ (ok c, s')
      → (c' : ContractConfig Orderbook.Handler) × (h : Orderbook.Globals) × (r ≡ (ok c', h))
        × (c ≡ tag of_orderbook c')
  on_orderbook-ok s s' (ok c', h) c e = (c', h, refl, ground (arith, e))
  on_orderbook-ok s s' (err x, h) c e = cc
  on_orderbook-ok s s' (panic x, h) c e = cc

  by_type :
      (addr : Bytes) (abi_type : AbiType) (p q : Bool) (client : EthClient) (s s' : Globals)
      (c : ContractConfig Handler)
      → (abi_type == orderbook) ≡ p
      → (abi_type == garden_htlc) ≡ q
      → (if p
            then (λ s. on_orderbook s (
                continue
                  (orderbook_config o.orderbook_abi (o.hex_to_address addr) client s.orderbook)
                  (λ c. lift (ok (tag of_orderbook c)))))
            else if q
            then (λ s. on_htlc s (
                continue
                  (htlc_config o.htlc_binding (o.hex_to_address addr) client s.htlc)
                  (λ c. lift (ok (tag of_htlc c)))))
            else lift (ok empty_config))
          s
        ≡ (ok c, s')
      → Configured client addr abi_type c
  by_type addr abi_type true q client s s' c is_p is_q e =
      let (c', h, made, same) =
        on_orderbook-ok s s'
          (orderbook_config o.orderbook_abi (o.hex_to_address addr) client s.orderbook) c e in
      by_orderbook s.orderbook h c' is_p made same
  by_type addr abi_type false true client s s' c is_p is_q e =
      let (c', h, made, same) =
        on_htlc-ok s s' (htlc_config o.htlc_binding (o.hex_to_address addr) client s.htlc) c e in
      by_htlc s.htlc h c' is_q made same
  by_type addr abi_type false false client s s' c is_p is_q e =
      by_neither is_p is_q (ground (arith, e)) (ground (arith, e))

  contract_handler-Configured :
      (abi_type : AbiType) (addr : Bytes) (client : EthClient) (s s' : Globals)
      (c : ContractConfig Handler)
      → contract_handler o abi_type addr client s ≡ (ok c, s')
      → Configured client addr abi_type c
  unfolding contract_handler
  contract_handler-Configured abi_type addr client s s' c e =
      by_type addr abi_type (abi_type == orderbook) (abi_type == garden_htlc) client s s' c refl
        refl e

  add_contracts-AllConfigured :
      (cs : Dict Bytes AbiType) (client : EthClient) (hs hs' : List (ContractConfig Handler))
      (s s' : Globals)
      → add_contracts o cs client hs s ≡ (ok hs', s')
      → (more : List (ContractConfig Handler)) × (hs' ≡ hs ++ more) × AllConfigured client cs more
  unfolding add_contracts
  add_contracts-AllConfigured [] client hs hs' s s' e =
      ([], ground (arith, e, append-nil hs), no_contract)
  add_contracts-AllConfigured ((addr, abi) ∷ cs) client hs hs' s s' e =
      let (c, s1, made, rest) =
        continue-ok (contract_handler o abi addr client s)
          (λ c. add_contracts o cs client (hs ++ c ∷ [])) hs' s' e in
      let (more, whole, all) =
        add_contracts-AllConfigured cs client (hs ++ c ∷ []) hs' s1 s' rest in
      (
        c ∷ more,
        whole ∙ append_assoc hs (c ∷ []) more,
        and_contract (contract_handler-Configured abi addr client s s1 c made) all,
      )

  get_config-ok :
      (chain : ChainConfig) (client : EthClient) (s s' : Globals) (config : WatcherConfig Handler)
      → get_config o chain client s ≡ (ok config, s')
      → (handlers : List (ContractConfig Handler)) × AllConfigured client chain.contracts handlers
        × (config ≡ watcher_config chain client handlers)
  unfolding get_config
  get_config-ok chain client s s' config e =
      let (hs, s1, made, rest) =
        continue-ok (add_contracts o chain.contracts client [] s)
          (λ hs. lift (ok (watcher_config chain client hs))) config s' e in
      let (more, whole, all) = add_contracts-AllConfigured chain.contracts client [] hs s s1 made in
      (hs, subst (AllConfigured client chain.contracts) (sym whole) all, ground (arith, rest))

  Made-append :
      (chains : Dict Bytes ChainConfig) (ws r : List (Watcher Handler)) (s s' : Globals)
      → add_chains o chains ws s ≡ (ok r, s')
      → (made : List (Watcher Handler)) × (r ≡ ws ++ made) × Made chains made
  unfolding add_chains
  Made-append [] ws r s s' e = ([], ground (arith, e, append-nil ws), none_left)
  Made-append ((name, chain) ∷ chains) ws r s s' e =
      let (client, s1, dialled, e1) =
        continue-ok (lift (o.dial chain.url) s)
          (λ client. do
            config ← get_config o chain client
            w ← lift (new_watcher config)
            add_chains o chains (ws ++ w ∷ []))
          r s' e in
      let (config, s2, got, e2) =
        continue-ok (get_config o chain client s1)
          (λ config. do w ← lift (new_watcher config); add_chains o chains (ws ++ w ∷ [])) r s'
          e1 in
      let (w, s3, built, e3) =
        continue-ok (lift (new_watcher config) s2) (λ w. add_chains o chains (ws ++ w ∷ [])) r s'
          e2 in
      let (handlers, counted, same) = get_config-ok chain client s1 s2 config got in
      let (more, whole, rest) = Made-append chains (ws ++ w ∷ []) r s3 s' e3 in
      (
        w ∷ more,
        whole ∙ append_assoc ws (w ∷ []) more,
        one_more client handlers (cc dialled) counted
            (subst (λ c. IsBuiltFrom c w) same ((new_watcher_correct config).1 w (cc built)).1)
            rest,
      )

  pub setup_watchers-Made :
      (cfg : Config) (ws : List (Watcher Handler)) (s s' : Globals)
      → setup_watchers o cfg s ≡ (ok ws, s')
      → Made cfg.chains ws
  unfolding setup_watchers
  setup_watchers-Made cfg ws s s' e =
      let (made, same, all) = Made-append cfg.chains [] ws s s' e in
      subst (Made cfg.chains) (sym same) all
