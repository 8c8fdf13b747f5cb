-- ===== src/Watcher/Build/Query.antt =====
-- The filter query of a built watcher and its handlers.
use garden_evm_watcher.Common.{
  ℕ, ◌≡◌, refl, sym, ap, subst, ◌∙◌, inl, inr, if◌then◌else◌, List, [], ◌∷◌, some, Option-cases,
  Dict, keys, lookup, bytes_comparable, same_bytes, same_bytes_iff, Bool-cases, arith, In,
  In-append_left, In-append_right, map, ok,
}
use garden_evm_watcher.Ethereum.{Address, Hash, Log, MatchesTopics, MatchesQuery}
use garden_evm_watcher.Watcher.Types.{ContractConfig, WatcherConfig, Watcher, EventJob}
use garden_evm_watcher.Watcher.Dispatch.{find_job}
use garden_evm_watcher.Watcher.Poll.{filter_query}
use garden_evm_watcher.Watcher.Build.Contracts.{IsBuiltFrom, event_ids, last_handlers}

In-MatchesTopics :
    (t : Hash) (ts topics : List Hash) → In t topics → MatchesTopics (topics ∷ []) (t ∷ ts)
In-MatchesTopics t ts [] m = absurd m
In-MatchesTopics t ts (a ∷ more) m = (m, tt)

module _ {H : Type 0} where
  -- A handler that is found belongs to the contract that `last_handlers` names.
  last_handlers-address :
      (a : Address) (cs : List (ContractConfig H)) (hs : Dict Hash H)
      → last_handlers a cs ≡ some hs
      → In a (map (λ c. c.address) cs) × ((id : Hash) → In id (keys hs) → In id (event_ids cs))
  unfolding last_handlers
  last_handlers-address a [] hs e = cc
  last_handlers-address a (c ∷ cs) hs e = elim (Option-cases (last_handlers a cs)) [
    | inr (found, eq) ↦
        let (there, ids) = last_handlers-address a cs found eq in
        let same : found ≡ hs = ground (arith, eq) in
        (
          inr there,
          λ id m.
              In-append_right id (keys c.event_handlers) _
                (ids id (subst (λ h. In id (keys h)) (sym same) m)),
        )
    | inl missing ↦
        let here : a ≡ c.address = ground (arith, missing, same_bytes_iff c.address a) in
        let same : c.event_handlers ≡ hs = ground (arith, missing) in
        (
          inl here,
          λ id m.
              In-append_left id (keys c.event_handlers) _
                (subst (λ h. In id (keys h)) (sym same) m),
        )
  ]

  lookup-In : (id : Hash) (hs : Dict Hash H) (h : H) → lookup id hs ≡ some h → In id (keys hs)
  unfolding lookup
  lookup-In id [] h e = cc
  lookup-In id ((j, v) ∷ hs) h e = elim (Bool-cases (same_bytes j id)) [
    | inl same ↦ inl (sym ((same_bytes_iff j id).0 same))
    | inr other ↦ inr (lookup-In id hs h (rw (other, if◌then◌else◌, lookup) at e))
  ]

  -- What a job that was found stands for.
  pub record Handled (table : Dict Address (Dict Hash H)) (log : Log) (job : EventJob H)
      : Type 0 where
    pub handlers : Dict Hash H
    pub topic : Hash
    pub rest : List Hash
    pub at_address : lookup log.address table ≡ some handlers
    pub first : log.topics ≡ topic ∷ rest
    pub at_topic : lookup topic handlers ≡ some job.handler

  Handled-topics :
      (table : Dict Address (Dict Hash H)) (log : Log) (job : EventJob H) (hs : Dict Hash H)
      (ts : List Hash)
      → find_job table log ≡ ok (some job)
      → lookup log.address table ≡ some hs
      → log.topics ≡ ts
      → Handled table log job
  unfolding find_job
  Handled-topics table log job hs [] e eq bare = absurd (ground (arith, eq, bare))
  Handled-topics table log job hs (t ∷ ts) e eq first = elim (Option-cases (lookup t hs)) [
    | inl missing ↦ absurd (ground (arith, eq, first, missing))
    | inr (h, found) ↦ record {
      handlers = hs;
      topic = t;
      rest = ts;
      at_address = eq;
      first = first;
      at_topic = found ∙ ap some (ground (arith, e, eq, first, found));
    }
  ]

  pub find_job-Handled :
      (table : Dict Address (Dict Hash H)) (log : Log) (job : EventJob H)
      → find_job table log ≡ ok (some job)
      → Handled table log job
  unfolding find_job
  find_job-Handled table log job e = elim (Option-cases (lookup log.address table)) [
    | inl missing ↦ absurd (ground (arith, missing))
    | inr (hs, eq) ↦ Handled-topics table log job hs log.topics e eq refl
  ]

  -- Every log that a built watcher has a handler for matches the query that it sends to the node.
  pub find_job-MatchesQuery :
      (config : WatcherConfig H) (w : Watcher H) (f to_block : ℕ) (log : Log) (job : EventJob H)
      → IsBuiltFrom config w
      → find_job w.address_to_handlers log ≡ ok (some job)
      → MatchesQuery (filter_query w f to_block) log
  unfolding filter_query
  find_job-MatchesQuery config w f to_block log job b e =
      let h = find_job-Handled w.address_to_handlers log job e in
      let (there, ids) =
        last_handlers-address log.address config.contracts h.handlers
          (sym (b.table log.address) ∙ h.at_address) in
      record {
        from_address = inr (rw b.addresses there);
        with_topics = rw h.first (
            In-MatchesTopics h.topic h.rest w.topics (
              (b.complete h.topic).1
                (ids h.topic (lookup-In h.topic h.handlers job.handler h.at_topic))));
      }
