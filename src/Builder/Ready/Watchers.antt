-- ===== src/Builder/Ready/Watchers.antt =====
-- The handlers in the tables of the watchers that setupWatchers made.
use garden_evm_watcher.Common.{
  ◌≡◌, sym, ap, subst, ◌∙◌, Bytes, bytes_comparable, List, [], ◌∷◌, ◌++◌, some, Option-cases, inl,
  inr, Dict, ok, arith, continue-ok, lift, ◌>>=◌, All, All-map, All-snoc,
}
use garden_evm_watcher.Ethereum.{Address, Hash, Log, EthClient}
use garden_evm_watcher.Watcher.Types.{ContractConfig, WatcherConfig, Watcher, EventJob}
use garden_evm_watcher.Watcher.Build.{new_watcher}
use garden_evm_watcher.Watcher.Build.Contracts.{IsBuiltFrom, last_handlers}
use garden_evm_watcher.Watcher.Build.Validation.{new_watcher_correct}
use garden_evm_watcher.Watcher.Build.Query.{find_job-Handled}
use garden_evm_watcher.Watcher.Dispatch.{find_job}
use garden_evm_watcher.Config.{ChainConfig, Config}
use garden_evm_watcher.Handlers.Htlc
use garden_evm_watcher.Builder.{
  Handler, Globals, Outside, of_htlc, watcher_config, add_contracts, get_config, add_chains,
  setup_watchers,
}
use garden_evm_watcher.Builder.Ready.{HasFilterer, IsServed, AllServed, add_contracts-Serves}

-- The filterer is set if the watcher can find a job with an HTLC handler.
abbrev pub IsReady : Globals → Watcher Handler → Type 0
IsReady s w =
    (log : Log) (job : EventJob Handler) (h : Htlc.Handler)
    → find_job w.address_to_handlers log ≡ ok (some job)
    → job.handler ≡ of_htlc h
    → HasFilterer s

last_handlers-IsServed :
    (s : Globals) (a : Address) (cs : List (ContractConfig Handler)) (hs : Dict Hash Handler)
    → AllServed s cs
    → last_handlers a cs ≡ some hs
    → IsServed s hs
unfolding last_handlers
last_handlers-IsServed s a [] hs all e = cc
last_handlers-IsServed s a (c ∷ cs) hs all e = elim (Option-cases (last_handlers a cs)) [
  | inr (found, eq) ↦ last_handlers-IsServed s a cs hs all.1 (eq ∙ ap some (ground (arith, eq)))
  | inl missing ↦
      let same : c.event_handlers ≡ hs = ground (arith, missing) in subst (IsServed s) same all.0
]

built-IsReady :
    (s : Globals) (config : WatcherConfig Handler) (w : Watcher Handler)
    → IsBuiltFrom config w
    → AllServed s config.contracts
    → IsReady s w
built-IsReady s config w built all log job h found is_htlc =
    let job_of = find_job-Handled w.address_to_handlers log job found in
    last_handlers-IsServed s log.address config.contracts job_of.handlers all
      (sym (built.table log.address) ∙ job_of.at_address) job_of.topic h
      (job_of.at_topic ∙ ap some is_htlc)

module _ {Contract : Type 0} (o : Outside Contract) where
  get_config-Serves :
      (chain : ChainConfig) (client : EthClient) (s s' : Globals) (config : WatcherConfig Handler)
      → get_config o chain client s ≡ (ok config, s')
      → (HasFilterer s → HasFilterer s') × AllServed s' config.contracts
  unfolding get_config watcher_config
  get_config-Serves chain client s s' config e =
      let (hs, s1, made, rest) =
        continue-ok (add_contracts o chain.contracts client [] s)
          (λ hs. lift (ok (watcher_config chain client hs))) config s' e in
      let same : s1 ≡ s' = ap (λ p. p.1) rest in
      let contracts : hs ≡ config.contracts = ground (arith, rest) in
      let (keep, all) = add_contracts-Serves o chain.contracts client [] hs s s1 made tt in
      (
        (λ f. subst HasFilterer same (keep f)),
        subst (AllServed s') contracts (subst (λ g. AllServed g hs) same all),
      )

  IsReady-later :
      (s s' : Globals) (ws : List (Watcher Handler))
      → (HasFilterer s → HasFilterer s')
      → All (IsReady s) ws
      → All (IsReady s') ws
  IsReady-later s s' ws keep =
      All-map (IsReady s) (IsReady s') ws
        (λ w ready log job h found is. keep (ready log job h found is))

  add_chains-IsReady :
      (chains : Dict Bytes ChainConfig) (ws r : List (Watcher Handler)) (s s' : Globals)
      → add_chains o chains ws s ≡ (ok r, s')
      → All (IsReady s) ws
      → All (IsReady s') r
  unfolding add_chains
  add_chains-IsReady [] ws r s s' e all =
      let same : s ≡ s' = ap (λ p. p.1) e in
      let made : ws ≡ r = ground (arith, e) in
      subst (All (IsReady s')) made (subst (λ g. All (IsReady g) ws) same all)
  add_chains-IsReady ((name, chain) ∷ chains) ws r s s' e all =
      let (client, s1, dialled, e1) =
        continue-ok (lift (o.dial chain.url) s)
          (λ client. do
            config ← get_config o chain client
            w ← lift (new_watcher config)
            add_chains o chains (ws ++ w ∷ []))
          r s' e in
      let (config, s2, got, e2) =
        continue-ok (get_config o chain client s1)
          (λ config. do w ← lift (new_watcher config); add_chains o chains (ws ++ w ∷ [])) r s'
          e1 in
      let (w, s3, built, e3) =
        continue-ok (lift (new_watcher config) s2) (λ w. add_chains o chains (ws ++ w ∷ [])) r s'
          e2 in
      let (keep, served) = get_config-Serves chain client s1 s2 config got in
      let from : s ≡ s1 = ap (λ p. p.1) dialled in
      let to : s2 ≡ s3 = ap (λ p. p.1) built in
      let ready : IsReady s2 w =
        built-IsReady s2 config w ((new_watcher_correct config).1 w (cc built)).1 served in
      let before : All (IsReady s2) ws =
        IsReady-later s1 s2 ws keep (subst (λ g. All (IsReady g) ws) from all) in
      add_chains-IsReady chains (ws ++ w ∷ []) r s3 s' e3
        (subst (λ g. All (IsReady g) (ws ++ w ∷ [])) to (All-snoc (IsReady s2) ws w before ready))

  -- When setupWatchers succeeds, every watcher that can find a job with a handler of the HTLC
  -- package, for any log, finds gardenHtlcEventFilter set: no HTLC handler meets a nil filterer.
  pub setup_watchers-IsReady :
      (cfg : Config) (ws : List (Watcher Handler)) (s s' : Globals)
      → setup_watchers o cfg s ≡ (ok ws, s')
      → All (IsReady s') ws
  unfolding setup_watchers
  setup_watchers-IsReady cfg ws s s' e = add_chains-IsReady cfg.chains [] ws s s' e tt
