-- ===== src/Builder/Ready.antt =====
-- After setupWatchers: the HTLC handlers and the variable gardenHtlcEventFilter that they read.
pub mod Watchers
use garden_evm_watcher.Common.{
  ◌≡◌, refl, sym, ap, subst, ◌∙◌, Bytes, bytes_comparable, ◌==◌, if◌then◌else◌, Bool, true, false,
  List, [], ◌∷◌, ◌++◌, map, Option, none, some, Option-cases, inl, inr, Bool-cases, Dict, lookup,
  Outcome, ok, err, panic, arith, continue-ok, continue, lift, ◌>>=◌, All, All-map, All-snoc,
}
use garden_evm_watcher.Ethereum.{Address, Hash, Log, EthClient}
use garden_evm_watcher.Watcher.Types.{ContractConfig, WatcherConfig, Watcher, EventJob}
use garden_evm_watcher.Watcher.Build.{new_watcher}
use garden_evm_watcher.Watcher.Build.Contracts.{IsBuiltFrom, last_handlers}
use garden_evm_watcher.Watcher.Build.Validation.{new_watcher_correct}
use garden_evm_watcher.Watcher.Build.Query.{find_job-Handled}
use garden_evm_watcher.Watcher.Dispatch.{find_job}
use garden_evm_watcher.Config.{AbiType, garden_htlc, orderbook, ChainConfig, Config}
use garden_evm_watcher.Handlers.Htlc
use garden_evm_watcher.Handlers.Htlc.{Filterer, htlc_config}
use garden_evm_watcher.Handlers.Htlc.Setup.{htlc_config-Configured}
use garden_evm_watcher.Handlers.Orderbook
use garden_evm_watcher.Handlers.Orderbook.{orderbook_config}
use garden_evm_watcher.Builder.{
  Handler, Globals, Outside, of_htlc, of_orderbook, tag, on_htlc, on_orderbook, empty_config,
  watcher_config, contract_handler, add_contracts, get_config, add_chains, setup_watchers,
}

abbrev pub HasFilterer : Globals → Type 0
HasFilterer s = (f : Filterer) × (s.htlc.garden_htlc_event_filter ≡ some f)

-- If there is an HTLC handler among them, the filterer is set.
abbrev pub IsServed : Globals → Dict Hash Handler → Type 0
IsServed s hs = (id : Hash) (h : Htlc.Handler) → lookup id hs ≡ some (of_htlc h) → HasFilterer s

orderbook-IsServed :
    (s : Globals) (hs : Dict Hash Orderbook.Handler)
    → IsServed s (map (λ p. (p.0, of_orderbook p.1)) hs)
unfolding lookup
orderbook-IsServed s [] id h e = cc
orderbook-IsServed s ((key, k) ∷ hs) id h e = elim (Bool-cases (key == id)) [
  | inl found ↦ absurd (ground (arith, e, found))
  | inr other ↦ orderbook-IsServed s hs id h (rw (other, if◌then◌else◌, lookup) at e)
]

abbrev pub AllServed : Globals → List (ContractConfig Handler) → Type 0
AllServed s = All (λ (c : ContractConfig Handler). IsServed s c.event_handlers)

AllServed-later :
    (s s' : Globals) (hs : List (ContractConfig Handler))
    → (HasFilterer s → HasFilterer s')
    → AllServed s hs
    → AllServed s' hs
AllServed-later s s' hs keep =
    All-map (λ (c : ContractConfig Handler). IsServed s c.event_handlers)
      (λ (c : ContractConfig Handler). IsServed s' c.event_handlers) hs
      (λ c served id h e. keep (served id h e))

-- What a step of the setup does: it keeps the filterer, and serves its handlers.
abbrev Serves : Globals → Globals → Dict Hash Handler → Type 0
Serves s s' hs = (HasFilterer s → HasFilterer s') × IsServed s' hs

module _ {Contract : Type 0} (o : Outside Contract) where
  htlc-Serves :
      (addr : Address) (client : EthClient) (s s' : Globals) (c : ContractConfig Handler)
      (r : Outcome (ContractConfig Htlc.Handler) × Htlc.Globals)
      → htlc_config o.htlc_binding addr client s.htlc ≡ r
      → on_htlc s (continue r (λ c. lift (ok (tag of_htlc c)))) ≡ (ok c, s')
      → Serves s s' c.event_handlers
  htlc-Serves addr client s s' c (ok c', h) made e =
      let configured = htlc_config-Configured o.htlc_binding addr client s.htlc h c' made in
      let (_, set) = configured.variables in
      let here : HasFilterer s' = (
        configured.filterer,
        ap (λ g. g.htlc.garden_htlc_event_filter) (sym (ap (λ p. p.1) e)) ∙ set,
      ) in
      ((λ _. here), (λ id h e. here))
  htlc-Serves addr client s s' c (err x, h) made e = cc
  htlc-Serves addr client s s' c (panic x, h) made e = cc

  orderbook-Serves :
      (s s' : Globals) (c : ContractConfig Handler)
      (r : Outcome (ContractConfig Orderbook.Handler) × Orderbook.Globals)
      → on_orderbook s (continue r (λ c. lift (ok (tag of_orderbook c)))) ≡ (ok c, s')
      → Serves s s' c.event_handlers
  orderbook-Serves s s' c (ok c', h) e = (
    (λ (f, set). (f, ap (λ p. p.1.htlc.garden_htlc_event_filter) (sym e) ∙ set)),
    subst (IsServed s') (ground (arith, e)) (orderbook-IsServed s' c'.event_handlers),
  )
  orderbook-Serves s s' c (err x, h) e = cc
  orderbook-Serves s s' c (panic x, h) e = cc

  by_type-Serves :
      (p q : Bool) (addr : Address) (client : EthClient) (s s' : Globals)
      (c : ContractConfig Handler)
      → (if p
            then (λ s. on_orderbook s (
                continue
                  (orderbook_config o.orderbook_abi addr client s.orderbook)
                  (λ c. lift (ok (tag of_orderbook c)))))
            else if q
            then (λ s. on_htlc s (
                continue
                  (htlc_config o.htlc_binding addr client s.htlc)
                  (λ c. lift (ok (tag of_htlc c)))))
            else lift (ok empty_config))
          s
        ≡ (ok c, s')
      → Serves s s' c.event_handlers
  unfolding lookup
  by_type-Serves true q addr client s s' c e = orderbook-Serves s s' c _ e
  by_type-Serves false true addr client s s' c e = htlc-Serves addr client s s' c _ refl e
  by_type-Serves false false addr client s s' c e = (
    (λ (f, set). (f, ap (λ p. p.1.htlc.garden_htlc_event_filter) (sym e) ∙ set)),
    (λ id h found. absurd (ground (arith, e, found))),
  )

  contract_handler-Serves :
      (abi_type : AbiType) (addr : Bytes) (client : EthClient) (s s' : Globals)
      (c : ContractConfig Handler)
      → contract_handler o abi_type addr client s ≡ (ok c, s')
      → Serves s s' c.event_handlers
  unfolding contract_handler
  contract_handler-Serves abi_type addr client s s' c e =
      by_type-Serves (abi_type == orderbook) (abi_type == garden_htlc) (o.hex_to_address addr)
        client s s' c e

  pub add_contracts-Serves :
      (cs : Dict Bytes AbiType) (client : EthClient) (hs hs' : List (ContractConfig Handler))
      (s s' : Globals)
      → add_contracts o cs client hs s ≡ (ok hs', s')
      → AllServed s hs
      → (HasFilterer s → HasFilterer s') × AllServed s' hs'
  unfolding add_contracts
  add_contracts-Serves [] client hs hs' s s' e a =
      let same : s ≡ s' = ap (λ p. p.1) e in
      let all : hs ≡ hs' = ground (arith, e) in
      (
        (λ (f, set). (f, ap (λ g. g.htlc.garden_htlc_event_filter) (sym same) ∙ set)),
        subst (AllServed s') all (subst (λ g. AllServed g hs) same a),
      )
  add_contracts-Serves ((addr, abi) ∷ cs) client hs hs' s s' e a =
      let (c, s1, made, rest) =
        continue-ok (contract_handler o abi addr client s)
          (λ c. add_contracts o cs client (hs ++ c ∷ [])) hs' s' e in
      let (keep, served) = contract_handler-Serves abi addr client s s1 c made in
      let (keep', all) = add_contracts-Serves cs client (hs ++ c ∷ []) hs' s1 s' rest (
        All-snoc (λ (c : ContractConfig Handler). IsServed s1 c.event_handlers) hs c
          (AllServed-later s s1 hs keep a) served) in
      ((λ f. keep' (keep f)), all)
