-- ===== src/Config/Print.antt =====
-- A configuration as a JSON value, the inverse of the decoder, and what is decoded from it.
pub mod Numbers
pub mod Printable
pub mod Roundtrip
use garden_evm_watcher.Common.{
  ℕ, ◌^◌, ◌<◌, ◌≡◌, ◌≢◌, refl, sym, ap, subst, ◌∙◌, Bool, ℤ, pos, negsuc, if◌then◌else◌, Bytes,
  ascii, bytes_comparable, same_bytes_iff, ◌==◌, List, [], ◌∷◌, ◌++◌, append_assoc, append-nil,
  map-append, Option, none, some, Dict, keys, insert, All, All-map, In, In-append_right, Distinct,
  arith, inl, inr, ◌⊎◌, uint64_mod, Bool-cases, lt→ltb,
}
use garden_evm_watcher.Model.BigInt.{set_from, scan_base10, decimal}
use garden_evm_watcher.Model.BigInt.Text.{set_from-decimal, scan_base10-digits_of}
use garden_evm_watcher.Config.{AbiType, ChainConfig, Config}
use garden_evm_watcher.Json.Parse.{
  JsonValue, null, number, string, object, JsonFields, no_fields, field,
}
use garden_evm_watcher.Config.Decode.{
  Saving, followed_by, first_error, decode_string, read_number, parse_uint, parse_int, all_digits,
  in_int64, decode_entries, decode_map, decode_fields, decode_struct, assign_chain, assign_config,
  fold_from, zero_chain, zero_config, decode_value,
}

module _ {A : Type 0} (print : A → JsonValue) where
  -- The entries of a map, behind the members `members`.
  abbrev pub entries_after : JsonFields → Dict Bytes A → JsonFields
  entries_after members [] = members
  entries_after members ((key, a) ∷ table) = entries_after (field members key (print a)) table

  abbrev pub map_value : Dict Bytes A → JsonValue
  map_value table = object (entries_after no_fields table)

abbrev pub chain_value : ChainConfig → JsonValue
chain_value c = object (
    field
      (field
        (field
          (field (field no_fields (ascii "contracts") (map_value string c.contracts)) (ascii "url")
            (string c.url))
          (ascii "startBlock") (number (decimal (pos c.start_block))))
        (ascii "maxBlockSpan") (number (decimal (pos c.max_block_span))))
      (ascii "pollingInterval") (number (decimal c.polling_interval)))

abbrev pub config_value : Config → JsonValue
config_value c = object (
    field (field no_fields (ascii "psqlDb") (string c.psql_db)) (ascii "chains")
      (map_value chain_value c.chains))

-- z fits an int64
abbrev pub InInt64 : ℤ → Type 0
InInt64 (pos n) = n < 2 ^ 63
InInt64 (negsuc n) = n < 2 ^ 63

-- The numbers fit their types, and no key comes twice.
pub record IsSoundChain (c : ChainConfig) : Type 0 where
  pub distinct : Distinct (keys c.contracts)
  pub start_fits : c.start_block < 2 ^ 64
  pub span_fits : c.max_block_span < 2 ^ 64
  pub interval_fits : InInt64 c.polling_interval

pub record IsSoundConfig (c : Config) : Type 0 where
  pub distinct : Distinct (keys c.chains)
  pub sound : All (λ (p : Bytes × ChainConfig). IsSoundChain p.1) c.chains

Distinct-fresh : (key : Bytes) (ks js : List Bytes) → Distinct (ks ++ key ∷ js) → ¬ In key ks
Distinct-fresh key [] js d m = m
Distinct-fresh key (k ∷ ks) js d (inl e) = d.0 (In-append_right k ks (key ∷ js) (inl (sym e)))
Distinct-fresh key (k ∷ ks) js d (inr m) = Distinct-fresh key ks js d.1 m

module _ {A : Type 0} where
  insert-fresh :
      (key : Bytes) (a : A) (table : Dict Bytes A)
      → ¬ In key (keys table)
      → insert key a table ≡ table ++ (key, a) ∷ []
  unfolding insert
  insert-fresh key a [] h = refl
  insert-fresh key a ((old, was) ∷ table) h = ground (
    arith,
    same_bytes_iff old key,
    insert-fresh key a table (λ m. h (inr m)),
    λ (e : key ≡ old). h (inl e),
  )

  keys-append : (t u : Dict Bytes A) → keys (t ++ u) ≡ keys t ++ keys u
  keys-append t u = map-append (λ (p : Bytes × A). p.0) t u

  decode_entries-after :
      (zero_value : A) (decode : JsonValue → A → Saving A) (print : A → JsonValue)
      (members : JsonFields) (old t u : Dict Bytes A)
      → All (λ (p : Bytes × A). decode (print p.1) zero_value ≡ (p.1, none)) u
      → Distinct (keys (t ++ u))
      → decode_entries zero_value decode members old ≡ (t, none)
      → decode_entries zero_value decode (entries_after print members u) old ≡ (t ++ u, none)
  unfolding decode_entries
  decode_entries-after zero_value decode print members old t [] all d e =
      e ∙ ap (λ l. (l, none)) (sym (append-nil t))
  decode_entries-after zero_value decode print members old t ((key, a) ∷ u) all d e =
      let fresh : ¬ In key (keys t) =
        Distinct-fresh key (keys t) (keys u) (subst Distinct (keys-append t ((key, a) ∷ u)) d) in
      let here : decode_entries zero_value decode (field members key (print a)) old
          ≡ (t ++ (key, a) ∷ [], none) =
        rw (e, all.0, insert-fresh key a t fresh, followed_by, decode_entries) refl in
      decode_entries-after zero_value decode print (field members key (print a)) old
        (t ++ (key, a) ∷ []) u all.1
        (subst (λ l. Distinct (keys l)) (sym (append_assoc t ((key, a) ∷ []) u)) d) here
      ∙ ap (λ l. (l, none)) (append_assoc t ((key, a) ∷ []) u)

  decode_map-map_value :
      (zero_value : A) (decode : JsonValue → A → Saving A) (print : A → JsonValue)
      (table : Dict Bytes A)
      → All (λ (p : Bytes × A). decode (print p.1) zero_value ≡ (p.1, none)) table
      → Distinct (keys table)
      → decode_map zero_value decode (map_value print table) [] ≡ (table, none)
  unfolding decode_entries
  decode_map-map_value zero_value decode print table all d =
      decode_entries-after zero_value decode print no_fields [] [] table all d refl

parse_uint-decimal : (n : ℕ) → n < 2 ^ 64 → parse_uint (decimal (pos n)) ≡ some n
unfolding parse_uint decimal
parse_uint-decimal n h =
    ap all_digits (scan_base10-digits_of n)
    ∙ ap (λ (b : Bool). if b then some n else none) (lt→ltb n uint64_mod h)

in_int64-fits : (z : ℤ) → InInt64 z → in_int64 (some z) ≡ some z
in_int64-fits (pos n) h = ap (λ (b : Bool). if b then some (pos n) else none) (lt→ltb n _ h)
in_int64-fits (negsuc n) h = ap (λ (b : Bool). if b then some (negsuc n) else none) (lt→ltb n _ h)

parse_int-decimal : (z : ℤ) → InInt64 z → parse_int (decimal z) ≡ some z
unfolding parse_int
parse_int-decimal z h =
    ap in_int64 (set_from-decimal scan_base10 scan_base10-digits_of z) ∙ in_int64-fits z h

strings-decode :
    (table : Dict Bytes AbiType)
    → All (λ (p : Bytes × AbiType). decode_string (string p.1) [] ≡ (p.1, none)) table
strings-decode [] = tt
strings-decode (entry ∷ table) = (refl, strings-decode table)

read-uint :
    (n old : ℕ) → n < 2 ^ 64 → read_number parse_uint (number (decimal (pos n))) old ≡ (n, none)
read-uint n old h = rw (parse_uint-decimal n h, read_number) refl

read-int : (z old : ℤ) → InInt64 z → read_number parse_int (number (decimal z)) old ≡ (z, none)
read-int z old h = rw (parse_int-decimal z h, read_number) refl

-- The five fields, from what is decoded for each.
abbrev assembled :
    Saving (Dict Bytes AbiType) → Bytes → Saving ℕ → Saving ℕ → Saving ℤ → Saving ChainConfig
assembled contracts url start span interval =
    followed_by
      (followed_by
        (followed_by
          (followed_by (followed_by contracts (λ x. (record zero_chain { contracts = x }, none)))
            (λ c. (record c { url = url }, none)))
          (λ c. followed_by start (λ x. (record c { start_block = x }, none))))
        (λ c. followed_by span (λ x. (record c { max_block_span = x }, none))))
      (λ c. followed_by interval (λ x. (record c { polling_interval = x }, none)))

decode-chain_value :
    (c : ChainConfig)
    → IsSoundChain c
    → decode_struct assign_chain (chain_value c) zero_chain ≡ (c, none)
unfolding decode_fields assign_chain fold_from
decode-chain_value c h =
    ap (λ m. assembled m c.url (start 0) (span 0) (interval (pos 0)))
      (decode_map-map_value [] decode_string string c.contracts (strings-decode c.contracts)
        h.distinct)
    ∙ ap (λ s. assembled (c.contracts, none) c.url s (span 0) (interval (pos 0)))
        (read-uint c.start_block 0 h.start_fits)
    ∙ ap (λ s. assembled (c.contracts, none) c.url (c.start_block, none) s (interval (pos 0)))
        (read-uint c.max_block_span 0 h.span_fits)
    ∙ ap (assembled (c.contracts, none) c.url (c.start_block, none) (c.max_block_span, none))
        (read-int c.polling_interval (pos 0) h.interval_fits)
  where
    start : ℕ → Saving ℕ
    start = read_number parse_uint (number (decimal (pos c.start_block)))

    span : ℕ → Saving ℕ
    span = read_number parse_uint (number (decimal (pos c.max_block_span)))

    interval : ℤ → Saving ℤ
    interval = read_number parse_int (number (decimal c.polling_interval))

-- A value that was printed from a configuration is decoded to it.
pub decode_value-config_value :
    (c : Config) → IsSoundConfig c → decode_value (some (config_value c)) ≡ (c, none)
unfolding decode_fields assign_config fold_from
decode_value-config_value c h =
    rw
      (
        decode_map-map_value zero_chain (decode_struct assign_chain) chain_value c.chains
            (All-map (λ (p : Bytes × ChainConfig). IsSoundChain p.1)
              (λ (p : Bytes × ChainConfig).
                decode_struct assign_chain (chain_value p.1) zero_chain ≡ (p.1, none))
              c.chains (λ p. decode-chain_value p.1) h.sound)
            h.distinct,
        followed_by,
        first_error,
      )
      refl
