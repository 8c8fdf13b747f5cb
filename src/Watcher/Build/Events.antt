-- ===== src/Watcher/Build/Events.antt =====
-- NewContractConfig: which handlers it installs, and when it fails.
use garden_evm_watcher.Common.{
  ◌≡◌, ◌≢◌, refl, ◌∙◌, inl, inr, if◌then◌else◌, [], ◌∷◌, Bytes, Option, none, some, Option-cases,
  Dict, keys, lookup, insert, lookup-insert, bytes_comparable, arith, In, All, Outcome, ok, err,
  event_not_in_abi, ◌==◌,
}
use garden_evm_watcher.Ethereum.{Address, Hash}
use garden_evm_watcher.Watcher.Types.{ContractConfig}
use garden_evm_watcher.Watcher.Build.{add_handlers, new_contract_config}

module _ {H : Type 0} where
  abbrev or_else : Option H → Option H → Option H
  or_else (some h) other = some h
  or_else none other = other

  -- The handler of the last event name that has the ID `id` in the ABI.
  pub last_handler : Dict Bytes Hash → Hash → Dict Bytes H → Option H
  last_handler abi id [] = none
  last_handler abi id ((name, h) ∷ hs) = elim (last_handler abi id hs) [
    | some found ↦ some found
    | none ↦ elim (lookup name abi) [ none ↦ none | some i ↦ if i == id then some h else none ]
  ]

  -- Either every name is in the ABI and each ID has its handler, or the error names an event that
  -- the ABI lacks.
  pub data Installs (address : Address) (abi : Dict Bytes Hash) (hs : Dict Bytes H)
      (r : Outcome (ContractConfig H)) : Type 0 where
    installed :
        (c : ContractConfig H)
        → r ≡ ok c
        → c.address ≡ address
        → All (λ (p : Bytes × H). lookup p.0 abi ≢ none) hs
        → ((id : Hash) → lookup id c.event_handlers ≡ last_handler abi id hs)
        → Installs address abi hs r
    missing :
        (name : Bytes)
        → r ≡ err (event_not_in_abi name)
        → In name (keys hs)
        → lookup name abi ≡ none
        → Installs address abi hs r

  data AddsTo (c : ContractConfig H) (abi : Dict Bytes Hash) (hs : Dict Bytes H)
      (r : Outcome (ContractConfig H)) : Type 0 where
    installed :
        (d : ContractConfig H)
        → r ≡ ok d
        → d.address ≡ c.address
        → All (λ (p : Bytes × H). lookup p.0 abi ≢ none) hs
        → ((id : Hash)
            → lookup id d.event_handlers
              ≡ or_else (last_handler abi id hs) (lookup id c.event_handlers))
        → AddsTo c abi hs r
    missing :
        (name : Bytes)
        → r ≡ err (event_not_in_abi name)
        → In name (keys hs)
        → lookup name abi ≡ none
        → AddsTo c abi hs r

  override :
      (abi : Dict Bytes Hash) (id i : Hash) (name : Bytes) (h : H) (hs : Dict Bytes H)
      (m : Dict Hash H)
      → lookup name abi ≡ some i
      → or_else (last_handler abi id hs) (lookup id (insert i h m))
        ≡ or_else (last_handler abi id ((name, h) ∷ hs)) (lookup id m)
  unfolding last_handler
  override abi id i name h hs m e = rw lookup-insert (ground (arith, e))

  AddsTo-cons :
      (abi : Dict Bytes Hash) (name : Bytes) (i : Hash) (h : H) (hs : Dict Bytes H)
      (c : ContractConfig H) (r : Outcome (ContractConfig H))
      → lookup name abi ≡ some i
      → AddsTo (record c { event_handlers = insert i h c.event_handlers }) abi hs r
      → AddsTo c abi ((name, h) ∷ hs) r
  AddsTo-cons abi name i h hs c r e (installed d eq same known table) =
      AddsTo.installed d eq same ((λ absent. cc (e, absent)), known)
        (λ id. table id ∙ override abi id i name h hs c.event_handlers e)
  AddsTo-cons abi name i h hs c r e (missing other eq there absent) =
      AddsTo.missing other eq (inr there) absent

  add_handlers-AddsTo :
      (abi : Dict Bytes Hash) (hs : Dict Bytes H) (c : ContractConfig H)
      → AddsTo c abi hs (add_handlers abi hs c)
  unfolding add_handlers
  add_handlers-AddsTo abi [] c = AddsTo.installed c refl refl tt (λ id. unfold last_handler in refl)
  add_handlers-AddsTo abi ((name, h) ∷ hs) c = elim (Option-cases (lookup name abi)) [
    | inl absent ↦ rw (absent, add_handlers) (AddsTo.missing name refl (inl refl) absent)
    | inr (i, e) ↦
        rw (e, add_handlers) (AddsTo-cons abi name i h hs c _ e (add_handlers-AddsTo abi hs _))
  ]

  or_else-none : (o : Option H) → or_else o none ≡ o
  or_else-none none = refl
  or_else-none (some h) = refl

  Installs-AddsTo :
      (address : Address) (abi : Dict Bytes Hash) (hs : Dict Bytes H)
      (r : Outcome (ContractConfig H))
      → AddsTo (record { address = address; event_handlers = [] }) abi hs r
      → Installs address abi hs r
  Installs-AddsTo address abi hs r (installed d eq same known table) =
      Installs.installed d eq same known
        (λ id. table id ∙ (unfold lookup in or_else-none (last_handler abi id hs)))
  Installs-AddsTo address abi hs r (missing name eq there absent) =
      Installs.missing name eq there absent

  -- NewContractConfig installs, for every ID, the handler of the last name with that ID, or fails
  -- with the name of a wanted event that is not in the ABI.
  pub new_contract_config-Installs :
      (address : Address) (abi : Dict Bytes Hash) (hs : Dict Bytes H)
      → Installs address abi hs (new_contract_config address abi hs)
  unfolding new_contract_config
  new_contract_config-Installs address abi hs =
      Installs-AddsTo address abi hs _ (add_handlers-AddsTo abi hs _)
