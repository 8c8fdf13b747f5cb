-- ===== src/Watcher/Delivery/Chain.antt =====
-- The logs of a chain, what a node answers from them, and the jobs that they call for.
use garden_evm_watcher.Common.{
  ℕ, ◌+◌, ◌^◌, ◌≤◌, ◌<◌, ◌≡◌, refl, ap, ◌∙◌, Bool, true, false, ◌&&◌, ◌||◌, inl, inr, ltb, leb, pos,
  List, [], ◌∷◌, Dict, ok, arith, same_bytes, same_bytes_iff, Bool-cases, In, if◌then◌else◌,
  Interleave, done, left, right, found_view, nothing, found, failed, crashed, Bytes,
}
use garden_evm_watcher.Ethereum.{
  Address, Hash, Log, FilterQuery, EthClient, MatchesTopics, MatchesQuery,
}
use garden_evm_watcher.Watcher.Types.{WatcherConfig, Watcher}
use garden_evm_watcher.Watcher.Dispatch.{find_job}
use garden_evm_watcher.Watcher.Dispatch.Accounting.{job_list}
use garden_evm_watcher.Watcher.Poll.{filter_query}
use garden_evm_watcher.Watcher.Build.Contracts.{IsBuiltFrom}
use garden_evm_watcher.Watcher.Build.Query.{find_job-MatchesQuery}
use garden_evm_watcher.Watcher.Loop.Scan.{covers}

abbrev pub has : Bytes → List Bytes → Bool
has a [] = false
has a (x ∷ xs) = same_bytes a x || has a xs

abbrev pub allows : Bytes → List Bytes → Bool
allows a [] = true
allows a (x ∷ xs) = has a (x ∷ xs)

abbrev pub allows_topics : List (List Hash) → List Hash → Bool
allows_topics [] ts = true
allows_topics ([] ∷ alts) [] = false
allows_topics ([] ∷ alts) (t ∷ ts) = allows_topics alts ts
allows_topics ((a ∷ more) ∷ alts) [] = false
allows_topics ((a ∷ more) ∷ alts) (t ∷ ts) = has t (a ∷ more) && allows_topics alts ts

-- The logs of a chain that `eth_getLogs` selects.
abbrev pub selects : FilterQuery → Log → Bool
selects q log =
    covers q log.block_number
    && (allows log.address q.addresses && allows_topics q.topics log.topics)

abbrev pub select : FilterQuery → List Log → List Log
select q [] = []
select q (log ∷ logs) = let rest = select q logs in if selects q log then log ∷ rest else rest

-- What the theorems on delivery assume of a node whose chain, once all is known, has these logs: a
-- range of blocks that its block number has reached is answered from them. No block is replaced.
pub record IsNode (client : EthClient) (chain : List Log) : Type 0 where
  pub fits : (t n : ℕ) → client.block_number t ≡ ok n → n < 2 ^ 63
  pub answers :
      (t n f l : ℕ) (q : FilterQuery) (logs : List Log)
      → client.block_number t ≡ ok n
      → q.from_block ≡ pos f
      → q.to_block ≡ pos l
      → l ≤ n
      → client.filter_logs t q ≡ ok logs
      → logs ≡ select q chain

abbrev pub inside : ℕ → ℕ → Log → Bool
inside a b log = ltb a log.block_number && leb log.block_number b

-- The logs of the blocks after `a`, up to `b`.
abbrev pub between : ℕ → ℕ → List Log → List Log
between a b [] = []
between a b (log ∷ logs) =
    let rest = between a b logs in if inside a b log then log ∷ rest else rest

pub between-none : (a : ℕ) (chain : List Log) → between a a chain ≡ []
between-none a [] = refl
between-none a (log ∷ logs) = ground (arith, between-none a logs)

between-Interleave :
    (a b c : ℕ) (chain : List Log)
    → a ≤ b
    → b ≤ c
    → Interleave (between a b chain) (between b c chain) (between a c chain)
between-Interleave a b c [] h k = done
between-Interleave a b c (log ∷ logs) h k = elim (Bool-cases (inside a b log)) [
  | inl first ↦
      let second : inside b c log ≡ false = ground arith in
      let both : inside a c log ≡ true = ground arith in
      rw (first, second, both, if◌then◌else◌) (left (between-Interleave a b c logs h k))
  | inr not_first ↦ elim (Bool-cases (inside b c log)) [
    | inl second ↦
        let both : inside a c log ≡ true = ground arith in
        rw (not_first, second, both, if◌then◌else◌) (right (between-Interleave a b c logs h k))
    | inr not_second ↦
        let neither : inside a c log ≡ false = ground arith in
        rw (not_first, not_second, neither, if◌then◌else◌) (between-Interleave a b c logs h k)
  ]
]

In-has : (a : Bytes) (xs : List Bytes) → In a xs → has a xs ≡ true
In-has a [] m = absurd m
In-has a (x ∷ xs) (inl e) = ground (arith, same_bytes_iff a x)
In-has a (x ∷ xs) (inr m) = ground (arith, In-has a xs m)

MatchesTopics-allows :
    (alts : List (List Hash)) (ts : List Hash)
    → MatchesTopics alts ts
    → allows_topics alts ts ≡ true
MatchesTopics-allows [] ts m = refl
MatchesTopics-allows ([] ∷ alts) [] m = absurd m
MatchesTopics-allows ([] ∷ alts) (t ∷ ts) m = MatchesTopics-allows alts ts m
MatchesTopics-allows ((a ∷ more) ∷ alts) [] m = absurd m
MatchesTopics-allows ((a ∷ more) ∷ alts) (t ∷ ts) m =
    rw (In-has t (a ∷ more) m.0) (MatchesTopics-allows alts ts m.1)

In-allows : (a : Bytes) (xs : List Bytes) → In a xs → allows a xs ≡ true
In-allows a [] m = refl
In-allows a (x ∷ xs) m = In-has a (x ∷ xs) m

MatchesQuery-selects :
    (q : FilterQuery) (log : Log) → MatchesQuery q log → selects q log ≡ covers q log.block_number
MatchesQuery-selects q log m = elim m.from_address [
  | inl none_named ↦
      ground (arith, none_named, MatchesTopics-allows q.topics log.topics m.with_topics)
  | inr named ↦ ground (
    arith,
    In-allows log.address q.addresses named,
    MatchesTopics-allows q.topics log.topics m.with_topics,
  )
]

module _ {H : Type 0} where
  job_list-Interleave :
      (table : Dict Address (Dict Hash H)) {xs ys zs : List Log}
      → Interleave xs ys zs
      → Interleave (job_list table xs) (job_list table ys) (job_list table zs)
  job_list-Interleave table done = done
  job_list-Interleave table (left {x} i) = elim (found_view (find_job table x)) [
    | found job eq ↦ rw (eq, job_list) (left (job_list-Interleave table i))
    | nothing eq ↦ rw (eq, job_list) (job_list-Interleave table i)
    | failed e eq ↦ rw (eq, job_list) (job_list-Interleave table i)
    | crashed p eq ↦ rw (eq, job_list) (job_list-Interleave table i)
  ]
  job_list-Interleave table (right {y} i) = elim (found_view (find_job table y)) [
    | found job eq ↦ rw (eq, job_list) (right (job_list-Interleave table i))
    | nothing eq ↦ rw (eq, job_list) (job_list-Interleave table i)
    | failed e eq ↦ rw (eq, job_list) (job_list-Interleave table i)
    | crashed p eq ↦ rw (eq, job_list) (job_list-Interleave table i)
  ]

  -- The jobs of consecutive ranges are the jobs of the whole range.
  pub jobs-between :
      (table : Dict Address (Dict Hash H)) (a b c : ℕ) (chain : List Log)
      → a ≤ b
      → b ≤ c
      → Interleave
          (job_list table (between a b chain))
          (job_list table (between b c chain))
          (job_list table (between a c chain))
  jobs-between table a b c chain h k =
      job_list-Interleave table (between-Interleave a b c chain h k)

  covers-inside :
      (w : Watcher H) (a b n : ℕ)
      → a < b
      → b < 2 ^ 63
      → covers (filter_query w (a + 1) b) n ≡ ltb a n && leb n b
  unfolding filter_query
  covers-inside w a b n h k = ground arith

  -- A watcher that was built asks for every log that it has a handler for.
  pub jobs-select :
      (config : WatcherConfig H) (w : Watcher H) (a b : ℕ) (chain : List Log)
      → IsBuiltFrom config w
      → a < b
      → b < 2 ^ 63
      → job_list w.address_to_handlers (select (filter_query w (a + 1) b) chain)
        ≡ job_list w.address_to_handlers (between a b chain)
  jobs-select config w a b [] built h k = refl
  jobs-select config w a b (log ∷ logs) built h k =
      let rest = jobs-select config w a b logs built h k in
      elim (found_view (find_job w.address_to_handlers log)) [
        | found job eq ↦
            let same : selects (filter_query w (a + 1) b) log ≡ inside a b log =
              MatchesQuery-selects (filter_query w (a + 1) b) log
                (find_job-MatchesQuery config w (a + 1) b log job built eq)
              ∙ covers-inside w a b log.block_number h k in
            elim (Bool-cases (inside a b log)) [
              | inl yes_it_is ↦
                  rw (same, yes_it_is, if◌then◌else◌, eq, job_list) (ap (λ l. job ∷ l) rest)
              | inr it_is_not ↦ rw (same, it_is_not, if◌then◌else◌) rest
            ]
        | nothing eq ↦ ground (arith, eq, rest)
        | failed e eq ↦ ground (arith, eq, rest)
        | crashed p eq ↦ ground (arith, eq, rest)
      ]
