-- ===== src/Watcher/Build/Contracts.antt =====
-- What NewWatcher's loop over the contracts leaves in the watcher.
use garden_evm_watcher.Common.{
  false, ◌≡◌, refl, sym, ◌∙◌, ◌⊎◌, inl, inr, ◌↔◌, Bool, if◌then◌else◌, List, [], ◌∷◌, ◌++◌,
  append_assoc, append-nil, Option, none, some, Dict, keys, lookup, insert, lookup-insert,
  bytes_comparable, arith, In, Distinct, In-append, In-append_left, In-append_right, map, ◌==◌,
}
use garden_evm_watcher.Ethereum.{Address, Hash}
use garden_evm_watcher.Watcher.Types.{ContractConfig, WatcherConfig, Watcher, open_quit}
use garden_evm_watcher.Watcher.Build.{add_topics, add_contracts, fresh_watcher}
use garden_evm_watcher.Watcher.Build.Topics.{Tracks, Adds, add_topics-Adds}

Adds-nil :
    (topics : List Hash) (seen : Dict Hash Bool) → Tracks topics seen → Adds [] topics topics seen
Adds-nil topics seen t = record {
  tracks = t;
  before = λ j m. m;
  added = λ j m. absurd m;
  no_more = λ j m. inl m;
}

Adds-append :
    (xs ys a b c : List Hash) (s t : Dict Hash Bool)
    → Adds xs a b s
    → Adds ys b c t
    → Adds (xs ++ ys) a c t
Adds-append xs ys a b c s t x y = record {
  tracks = y.tracks;
  before = λ j m. y.before j (x.before j m);
  added =
      λ j m. elim (In-append j xs ys m) [ inl l ↦ y.before j (x.added j l) | inr r ↦ y.added j r ];
  no_more = λ j m. elim (y.no_more j m) [
    | inl l ↦ elim (x.no_more j l) [ inl o ↦ inl o | inr n ↦ inr (In-append_left j xs ys n) ]
    | inr r ↦ inr (In-append_right j xs ys r)
  ];
}

no_topics : Tracks [] []
no_topics = record {
  distinct = tt;
  marked = λ id m. absurd m;
  only = λ id b e. unfold lookup in cc e;
}

none_before : (cs : List Hash) (id : Hash) → In id [] ⊎ In id cs → In id cs
none_before cs id (inl m) = absurd m
none_before cs id (inr m) = m

module _ {H : Type 0} where
  -- Every event ID that some contract has a handler for.
  abbrev pub event_ids : List (ContractConfig H) → List Hash
  event_ids [] = []
  event_ids (c ∷ cs) = keys c.event_handlers ++ event_ids cs

  -- The handlers of the last contract at an address.
  unfoldable pub last_handlers : Address → List (ContractConfig H) → Option (Dict Hash H)
  last_handlers a [] = none
  last_handlers a (c ∷ cs) = elim (last_handlers a cs) [
    | some handlers ↦ some handlers
    | none ↦ if c.address == a then some c.event_handlers else none
  ]

  abbrev or_else : Option (Dict Hash H) → Option (Dict Hash H) → Option (Dict Hash H)
  or_else (some h) other = some h
  or_else none other = other

  record Builds (cs : List (ContractConfig H)) (w : Watcher H) (r : Watcher H × Dict Hash Bool)
      : Type 0 where
    addresses : r.0.addresses ≡ w.addresses ++ map (λ c. c.address) cs
    topics : Adds (event_ids cs) w.topics r.0.topics r.1
    table :
        (a : Address)
        → lookup a r.0.address_to_handlers
          ≡ or_else (last_handlers a cs) (lookup a w.address_to_handlers)

  override :
      (a : Address) (c : ContractConfig H) (cs : List (ContractConfig H))
      (m : Dict Address (Dict Hash H))
      → or_else (last_handlers a cs) (lookup a (insert c.address c.event_handlers m))
        ≡ or_else (last_handlers a (c ∷ cs)) (lookup a m)
  unfolding last_handlers
  override a c cs m = rw lookup-insert (ground arith)

  add_contracts-Builds :
      (cs : List (ContractConfig H)) (w : Watcher H) (seen : Dict Hash Bool)
      → Tracks w.topics seen
      → Builds cs w (add_contracts cs (w, seen))
  unfolding add_contracts
  add_contracts-Builds [] w seen t = record {
    addresses = sym (append-nil _);
    topics = Adds-nil w.topics seen t;
    table = λ a. unfold last_handlers in refl;
  }
  add_contracts-Builds (c ∷ cs) w seen t =
      let step = add_topics (keys c.event_handlers) (w.topics, seen) in
      let first = add_topics-Adds (keys c.event_handlers) w.topics seen t in
      let rest =
        add_contracts-Builds cs
          (record w {
            addresses = w.addresses ++ c.address ∷ [];
            topics = step.0;
            address_to_handlers = insert c.address c.event_handlers w.address_to_handlers;
          })
          step.1 first.tracks in
      record {
        addresses =
            rest.addresses ∙ append_assoc w.addresses (c.address ∷ []) (map (λ x. x.address) cs);
        topics =
            Adds-append (keys c.event_handlers) (event_ids cs) w.topics _ _ _ _ first rest.topics;
        table = λ a. rest.table a ∙ override a c cs w.address_to_handlers;
      }

  -- No goroutine, and an empty channel that is open.
  pub record IsIdle (w : Watcher H) : Type 0 where
    pub no_workers : w.workers ≡ 0
    pub no_watchers : w.watchers ≡ 0
    pub not_stopped : w.quit ≡ open_quit
    pub nothing_queued : w.traffic.queue ≡ []
    pub nothing_received : w.traffic.received ≡ []
    pub nothing_dropped : w.traffic.dropped ≡ []
    pub still_open : w.traffic.closed ≡ false

  -- What NewWatcher promises of its watcher: the addresses of the contracts in order, the event IDs
  -- of all of them as topics, each once, for an address the handlers of its last contract, and that
  -- nothing runs yet.
  pub record IsBuiltFrom (config : WatcherConfig H) (w : Watcher H) : Type 0 where
    pub same_config : w.config ≡ config
    pub addresses : w.addresses ≡ map (λ c. c.address) config.contracts
    pub distinct : Distinct w.topics
    pub complete : (id : Hash) → In id w.topics ↔ In id (event_ids config.contracts)
    pub table : (a : Address) → lookup a w.address_to_handlers ≡ last_handlers a config.contracts
    pub idle : IsIdle w

  add_contracts_keep :
      (cs : List (ContractConfig H)) (w : Watcher H) (seen : Dict Hash Bool)
      → IsIdle w
      → ((add_contracts cs (w, seen)).0.config ≡ w.config) × IsIdle (add_contracts cs (w, seen)).0
  unfolding add_contracts
  add_contracts_keep [] w seen i = (refl, i)
  add_contracts_keep (c ∷ cs) w seen i = add_contracts_keep cs _ _ (record {
    no_workers = i.no_workers;
    no_watchers = i.no_watchers;
    not_stopped = i.not_stopped;
    nothing_queued = i.nothing_queued;
    nothing_received = i.nothing_received;
    nothing_dropped = i.nothing_dropped;
    still_open = i.still_open;
  })

  or_else-none : (o : Option (Dict Hash H)) → or_else o none ≡ o
  or_else-none none = refl
  or_else-none (some h) = refl

  pub fresh-IsBuiltFrom :
      (config : WatcherConfig H)
      → IsBuiltFrom config (add_contracts config.contracts (fresh_watcher config, [])).0
  unfolding fresh_watcher
  fresh-IsBuiltFrom config =
      let (same, idle) = add_contracts_keep config.contracts (fresh_watcher config) [] (record {
        no_workers = refl;
        no_watchers = refl;
        not_stopped = refl;
        nothing_queued = refl;
        nothing_received = refl;
        nothing_dropped = refl;
        still_open = refl;
      }) in
      let b = add_contracts-Builds config.contracts (fresh_watcher config) [] no_topics in
      record {
        same_config = same;
        idle = idle;
        addresses = b.addresses;
        distinct = b.topics.tracks.distinct;
        complete = λ id. (λ m. none_before _ id (b.topics.no_more id m), λ m. b.topics.added id m);
        table = λ a. b.table a ∙ (unfold lookup in or_else-none (last_handlers a config.contracts));
      }
