-- ===== src/Config/Load.antt =====
-- cmd/config/config.go: LoadConfiguration. The file system is a parameter.
use garden_evm_watcher.Common.{Bytes, Outcome, ok, err, panic, panicked}
use garden_evm_watcher.Config.{Config}
use garden_evm_watcher.Config.Decode.{decode_config}

-- The error of `Decode` is ignored. A file that does not open is a panic.
unfoldable pub load_configuration : (Bytes → Outcome Bytes) → Bytes → Outcome Config
load_configuration open_file file = elim (open_file file) [
  | ok text ↦ ok (decode_config text).0
  | err e ↦ panic (panicked e)
  | panic p ↦ panic p
]
