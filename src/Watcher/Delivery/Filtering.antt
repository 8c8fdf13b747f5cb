-- ===== src/Watcher/Delivery/Filtering.antt =====
-- A node that selects from the logs of a chain returns only logs that match the query.
use garden_evm_watcher.Common.{
  ◌≡◌, ◌⊎◌, refl, true, inl, inr, List, [], ◌∷◌, arith, same_bytes, same_bytes_iff, Bool-cases, In,
  All, Bytes, if◌then◌else◌,
}
use garden_evm_watcher.Ethereum.{Hash, Log, FilterQuery, MatchesTopics, MatchesQuery}
use garden_evm_watcher.Watcher.Delivery.Chain.{has, allows, allows_topics, selects, select}

has-In : (a : Bytes) (xs : List Bytes) → has a xs ≡ true → In a xs
has-In a [] h = cc
has-In a (x ∷ xs) h = elim (Bool-cases (same_bytes a x)) [
  | inl same ↦ inl ((same_bytes_iff a x).0 same)
  | inr other ↦ inr (has-In a xs (ground (arith, h, other)))
]

allows-In : (a : Bytes) (xs : List Bytes) → allows a xs ≡ true → (xs ≡ []) ⊎ In a xs
allows-In a [] h = inl refl
allows-In a (x ∷ xs) h = inr (has-In a (x ∷ xs) h)

allows_topics-MatchesTopics :
    (alts : List (List Hash)) (ts : List Hash)
    → allows_topics alts ts ≡ true
    → MatchesTopics alts ts
allows_topics-MatchesTopics [] ts h = tt
allows_topics-MatchesTopics ([] ∷ alts) [] h = cc
allows_topics-MatchesTopics ([] ∷ alts) (t ∷ ts) h = allows_topics-MatchesTopics alts ts h
allows_topics-MatchesTopics ((a ∷ more) ∷ alts) [] h = cc
allows_topics-MatchesTopics ((a ∷ more) ∷ alts) (t ∷ ts) h = (
  has-In t (a ∷ more) (ground (arith, h)),
  allows_topics-MatchesTopics alts ts (ground (arith, h)),
)

selects-MatchesQuery : (q : FilterQuery) (log : Log) → selects q log ≡ true → MatchesQuery q log
selects-MatchesQuery q log h = record {
  from_address = allows-In log.address q.addresses (ground (arith, h));
  with_topics = allows_topics-MatchesTopics q.topics log.topics (ground (arith, h));
}

-- The logs that a query selects from a chain match the query.
pub select-MatchesQuery :
    (q : FilterQuery) (chain : List Log) → All (MatchesQuery q) (select q chain)
select-MatchesQuery q [] = tt
select-MatchesQuery q (log ∷ chain) = elim (Bool-cases (selects q log)) [
  | inl yes_it_is ↦
      rw (yes_it_is, if◌then◌else◌)
        (selects-MatchesQuery q log yes_it_is, select-MatchesQuery q chain)
  | inr it_is_not ↦ rw (it_is_not, if◌then◌else◌) (select-MatchesQuery q chain)
]
