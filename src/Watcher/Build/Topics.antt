-- ===== src/Watcher/Build/Topics.antt =====
-- The topics, addresses and handler table that NewWatcher builds from the contracts.
use garden_evm_watcher.Common.{
  ◌≡◌, refl, sym, subst, ◌⊎◌, inl, inr, Bool, true, if◌then◌else◌, List, [], ◌∷◌, ◌++◌, none, some,
  Option-cases, Dict, lookup, insert, lookup-insert, bytes_comparable, same_bytes, same_bytes_iff,
  Bool-cases, arith, In, Distinct, In-append, In-append_left, In-append_right,
}
use garden_evm_watcher.Ethereum.{Hash}
use garden_evm_watcher.Watcher.Build.{add_topics}

-- `seen` marks exactly the topics so far, and no topic comes twice.
pub record Tracks (topics : List Hash) (seen : Dict Hash Bool) : Type 0 where
  pub distinct : Distinct topics
  pub marked : (id : Hash) → In id topics → lookup id seen ≡ some true
  pub only : (id : Hash) (b : Bool) → lookup id seen ≡ some b → In id topics

Distinct-append_one :
    (xs : List Hash) (x : Hash) → Distinct xs → ¬ In x xs → Distinct (xs ++ x ∷ [])
Distinct-append_one [] x d h = (λ m. m, tt)
Distinct-append_one (y ∷ xs) x d h = (fresh, Distinct-append_one xs x d.1 (λ m. h (inr m)))
  where
    fresh : ¬ In y (xs ++ x ∷ [])
    fresh m = elim (In-append y xs (x ∷ []) m) [
      | inl before ↦ d.0 before
      | inr (inl e) ↦ h (inl (sym e))
      | inr (inr nowhere) ↦ nowhere
    ]

Tracks-mark :
    (topics : List Hash) (seen : Dict Hash Bool) (id : Hash)
    → Tracks topics seen
    → lookup id seen ≡ none
    → Tracks (topics ++ id ∷ []) (insert id true seen)
Tracks-mark topics seen id t new = record {
  distinct = Distinct-append_one topics id t.distinct (λ m. cc (t.marked id m));
  marked = λ j m. rw lookup-insert (mark_of j (In-append j topics (id ∷ []) m));
  only = λ j b. rw lookup-insert (only_of j b);
}
  where
    mark_of :
        (j : Hash)
        → In j topics ⊎ In j (id ∷ [])
        → (if same_bytes id j then some true else lookup j seen) ≡ some true
    mark_of j (inl before) = ground (arith, t.marked j before)
    mark_of j (inr (inl e)) = ground (arith, same_bytes_iff id j, e)
    mark_of j (inr (inr nowhere)) = absurd nowhere

    only_of :
        (j : Hash) (b : Bool)
        → (if same_bytes id j then some true else lookup j seen) ≡ some b
        → In j (topics ++ id ∷ [])
    only_of j b h = elim (Bool-cases (same_bytes id j)) [
      | inl same ↦ In-append_right j topics (id ∷ []) (inl (sym ((same_bytes_iff id j).0 same)))
      | inr other ↦ In-append_left j topics (id ∷ []) (t.only j b (rw (other, if◌then◌else◌) at h))
    ]

-- What the loop over one contract's event IDs adds.
pub record Adds (ids topics topics' : List Hash) (seen' : Dict Hash Bool) : Type 0 where
  pub tracks : Tracks topics' seen'
  pub before : (id : Hash) → In id topics → In id topics'
  pub added : (id : Hash) → In id ids → In id topics'
  pub no_more : (id : Hash) → In id topics' → In id topics ⊎ In id ids

Adds-old :
    (id : Hash) (ids topics topics' : List Hash) (seen' : Dict Hash Bool)
    → In id topics
    → Adds ids topics topics' seen'
    → Adds (id ∷ ids) topics topics' seen'
Adds-old id ids topics topics' seen' known a = record {
  tracks = a.tracks;
  before = a.before;
  added = λ j m. elim m [
    | inl e ↦ subst (λ k. In k topics') (sym e) (a.before id known)
    | inr m' ↦ a.added j m'
  ];
  no_more = λ j m. elim (a.no_more j m) [ inl l ↦ inl l | inr r ↦ inr (inr r) ];
}

Adds-new :
    (id : Hash) (ids topics topics' : List Hash) (seen' : Dict Hash Bool)
    → Adds ids (topics ++ id ∷ []) topics' seen'
    → Adds (id ∷ ids) topics topics' seen'
Adds-new id ids topics topics' seen' a = record {
  tracks = a.tracks;
  before = λ j m. a.before j (In-append_left j topics (id ∷ []) m);
  added = λ j m. elim m [
    | inl e ↦
        subst (λ k. In k topics') (sym e)
          (a.before id (In-append_right id topics (id ∷ []) (inl refl)))
    | inr m' ↦ a.added j m'
  ];
  no_more = λ j m. elim (a.no_more j m) [
    | inl l ↦ old_or_new j (In-append j topics (id ∷ []) l)
    | inr r ↦ inr (inr r)
  ];
}
  where
    old_or_new : (j : Hash) → In j topics ⊎ In j (id ∷ []) → In j topics ⊎ In j (id ∷ ids)
    old_or_new j (inl l) = inl l
    old_or_new j (inr (inl e)) = inr (inl e)
    old_or_new j (inr (inr n)) = absurd n

pub add_topics-Adds :
    (ids topics : List Hash) (seen : Dict Hash Bool)
    → Tracks topics seen
    → let r = add_topics ids (topics, seen) in Adds ids topics r.0 r.1
unfolding add_topics
add_topics-Adds [] topics seen t = record {
  tracks = t;
  before = λ j m. m;
  added = λ j m. absurd m;
  no_more = λ j m. inl m;
}
add_topics-Adds (id ∷ ids) topics seen t = elim (Option-cases (lookup id seen)) [
  | inl new ↦
      rw (new, add_topics)
        (Adds-new id ids topics _ _ (
          add_topics-Adds ids (topics ++ id ∷ []) (insert id true seen)
            (Tracks-mark topics seen id t new)))
  | inr (b, old) ↦
      let known = t.only id b old in
      rw (t.marked id known, add_topics)
        (Adds-old id ids topics _ _ known (add_topics-Adds ids topics seen t))
]
