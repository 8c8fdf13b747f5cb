-- ===== src/Watcher/Tests/Build.antt =====
-- The constructors on concrete configurations.
use garden_evm_watcher.Common.{
  ℕ, ◌≡◌, refl, Bytes, ascii, [], ◌∷◌, Dict, lookup, insert, ok, err, arith, bytes_comparable,
  event_not_in_abi,
}
use garden_evm_watcher.Ethereum.{Hash, MatchesQuery}
use garden_evm_watcher.Watcher.Types.{Watcher}
use garden_evm_watcher.Watcher.Build.{new_watcher, new_contract_config, add_handlers}
use garden_evm_watcher.Watcher.Build.Contracts.{IsBuiltFrom}
use garden_evm_watcher.Watcher.Build.Validation.{IsAcceptable, new_watcher_correct}
use garden_evm_watcher.Watcher.Build.Query.{find_job-MatchesQuery}
use garden_evm_watcher.Watcher.Build.Events.{Installs, new_contract_config-Installs}
use garden_evm_watcher.Watcher.Dispatch.{find_job}
use garden_evm_watcher.Watcher.Poll.{filter_query}
use garden_evm_watcher.Watcher.Tests.{here, topic, log_at, job_at, config, built, new_watcher-built}

config-IsAcceptable : IsAcceptable config
config-IsAcceptable = record {
  client = λ e. cc;
  logger = λ e. cc;
  workers = omega arith;
  room = omega arith;
}

new_watcher_correct_example :
    (IsAcceptable config → (w : Watcher ℕ) × (new_watcher config ≡ ok w))
    × ((w : Watcher ℕ) → new_watcher config ≡ ok w → IsAcceptable config × IsBuiltFrom config w)
new_watcher_correct_example = new_watcher_correct config

pub built-IsBuiltFrom : IsBuiltFrom config built
built-IsBuiltFrom = ((new_watcher_correct config).1 built new_watcher-built).1

find_job-MatchesQuery_example : MatchesQuery (filter_query built 1 11) (log_at 5)
unfolding find_job lookup
find_job-MatchesQuery_example =
    find_job-MatchesQuery config built 1 11 (log_at 5) (job_at 5) built-IsBuiltFrom refl

abbrev abi : Dict Bytes Hash
abi = (ascii "Initiated", topic) ∷ (ascii "Refunded", ascii "Refunded()") ∷ []

abbrev wanted : Dict Bytes ℕ
wanted = (ascii "Initiated", 7) ∷ (ascii "Refunded", 8) ∷ []

abbrev unknown : Dict Bytes ℕ
unknown = (ascii "Initiated", 7) ∷ (ascii "Redeemed", 8) ∷ []

new_contract_config_missing :
    new_contract_config here abi unknown ≡ err (event_not_in_abi (ascii "Redeemed"))
unfolding new_contract_config add_handlers lookup insert
new_contract_config_missing = refl

new_contract_config-Installs_example :
    Installs here abi wanted (new_contract_config here abi wanted)
new_contract_config-Installs_example = new_contract_config-Installs here abi wanted
