-- ===== src/Config/Print/Roundtrip.antt =====
-- LoadConfiguration reads a configuration back from its text.
use garden_evm_watcher.Common.{
  pos, ◌≡◌, ap, ◌∙◌, Bytes, ascii, [], none, some, Outcome, ok, All, All-map, arith, append-nil,
  sym,
}
use garden_evm_watcher.Config.{AbiType, ChainConfig, Config}
use garden_evm_watcher.Json.Parse.{string, no_fields, a_value, parse_from, first_value, parse_json}
use garden_evm_watcher.Config.Decode.{decode_config, decode_value}
use garden_evm_watcher.Config.Load.{load_configuration}
use garden_evm_watcher.Config.Print.{
  chain_value, config_value, IsSoundConfig, decode_value-config_value,
}
use garden_evm_watcher.Json.Tokens.{tokens_of, IsNested, parse-tokens_of}
use garden_evm_watcher.Json.Write.{IsPlain, text_of, lex-text_of}
use garden_evm_watcher.Config.Print.Numbers.{IsNumber-decimal}
use garden_evm_watcher.Config.Print.Printable.{
  HasText, tokens_of-IsPrintable, entries_after-HasText,
}

-- Every string is of printable ASCII characters that need no escape.
pub record IsPlainChain (c : ChainConfig) : Type 0 where
  pub contracts : All (λ (p : Bytes × AbiType). All IsPlain p.0 × All IsPlain p.1) c.contracts
  pub url : All IsPlain c.url

pub record IsPlainConfig (c : Config) : Type 0 where
  pub psql_db : All IsPlain c.psql_db
  pub chains : All (λ (p : Bytes × ChainConfig). All IsPlain p.0 × IsPlainChain p.1) c.chains

abbrev pub config_text : Config → Bytes
config_text c = text_of (tokens_of (config_value c))

contracts-IsPlain : All IsPlain (ascii "contracts")
contracts-IsPlain = ground arith

url-IsPlain : All IsPlain (ascii "url")
url-IsPlain = ground arith

start_block-IsPlain : All IsPlain (ascii "startBlock")
start_block-IsPlain = ground arith

max_block_span-IsPlain : All IsPlain (ascii "maxBlockSpan")
max_block_span-IsPlain = ground arith

polling_interval-IsPlain : All IsPlain (ascii "pollingInterval")
polling_interval-IsPlain = ground arith

psql_db-IsPlain : All IsPlain (ascii "psqlDb")
psql_db-IsPlain = ground arith

chains-IsPlain : All IsPlain (ascii "chains")
chains-IsPlain = ground arith

chain_value-HasText :
    (c : ChainConfig) → IsPlainChain c → HasText (chain_value c) × IsNested 2 (chain_value c)
unfolding HasText IsNested
chain_value-HasText c h =
    let (texts, nest) =
      entries_after-HasText string 0 no_fields c.contracts
        (All-map (λ (p : Bytes × AbiType). All IsPlain p.0 × All IsPlain p.1)
          (λ (p : Bytes × AbiType).
            All IsPlain p.0 × (HasText (string p.1) × IsNested 0 (string p.1)))
          c.contracts (λ p (k, t). (k, (t, tt))) h.contracts)
        (tt, tt) in
    (
      (
        (
          (
            ((tt, (contracts-IsPlain, texts)), (url-IsPlain, h.url)),
            (start_block-IsPlain, IsNumber-decimal (pos c.start_block)),
          ),
          (max_block_span-IsPlain, IsNumber-decimal (pos c.max_block_span)),
        ),
        (polling_interval-IsPlain, IsNumber-decimal c.polling_interval),
      ),
      (((((tt, nest), tt), tt), tt), tt),
    )

config_value-HasText :
    (c : Config) → IsPlainConfig c → HasText (config_value c) × IsNested 4 (config_value c)
unfolding HasText IsNested
config_value-HasText c h =
    let (texts, nest) =
      entries_after-HasText chain_value 2 no_fields c.chains
        (All-map (λ (p : Bytes × ChainConfig). All IsPlain p.0 × IsPlainChain p.1)
          (λ (p : Bytes × ChainConfig).
            All IsPlain p.0 × (HasText (chain_value p.1) × IsNested 2 (chain_value p.1)))
          c.chains (λ p (k, t). (k, chain_value-HasText p.1 t)) h.chains)
        (tt, tt) in
    (((tt, (psql_db-IsPlain, h.psql_db)), (chains-IsPlain, texts)), ((tt, tt), nest))

parse_json-config_text :
    (c : Config) → IsPlainConfig c → parse_json (config_text c) ≡ some (config_value c)
unfolding parse_json
parse_json-config_text c h =
    let (texts, nest) = config_value-HasText c h in
    let read =
      lex-text_of (tokens_of (config_value c)) (tokens_of-IsPrintable (config_value c) texts) in
    ap first_value (
      ap (parse_from a_value []) (read ∙ sym (append-nil (tokens_of (config_value c))))
      ∙ parse-tokens_of (config_value c) 4 [] [] nest (omega arith))

-- For a configuration whose numbers fit their types, whose maps have no key twice and whose strings
-- are of printable ASCII characters that need no escape: from a file with its JSON text, with keys
-- such as "psqlDb", the decoder and LoadConfiguration give the configuration back, and no error.
pub load_configuration-config_text :
    (open_file : Bytes → Outcome Bytes) (file : Bytes) (c : Config)
    → open_file file ≡ ok (config_text c)
    → IsSoundConfig c
    → IsPlainConfig c
    → (decode_config (config_text c) ≡ (c, none)) × (load_configuration open_file file ≡ ok c)
unfolding load_configuration decode_config
load_configuration-config_text open_file file c opened sound texts =
    let decoded : decode_value (parse_json (config_text c)) ≡ (c, none) =
      ap decode_value (parse_json-config_text c texts) ∙ decode_value-config_value c sound in
    (decoded, rw (opened, load_configuration) (ap (λ r. ok r.0) decoded))
