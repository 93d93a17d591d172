-- ===== src/Tests/Settings.antt =====
-- What the theorems on the configuration say for a small environment.
use cca_go_indexer.Base.{◌≡◌, ◌≢◌, refl, Option, none, some, [], ◌∷◌, if◌then◌else◌, arith}
use cca_go_indexer.Base.Effect.{ok}
use cca_go_indexer.BigInt.{ℤ, pos, negsuc}
use cca_go_indexer.Config.{Config, load_indexer}
use cca_go_indexer.Config.Loaded.{Means, KnowsDefaults, IsJust}
use cca_go_indexer.Config.Loads.{IsComplete, load_indexer-IsComplete}
use cca_go_indexer.Config.Printed.{value_in, variables, IsWritable, load_indexer_written}
use cca_go_indexer.Text.{Text, codes, text_eq}

abbrev pub seconds : Text → Option ℤ
seconds t =
    if text_eq t (codes "12s")
    then some (pos 12000000000)
    else (if text_eq t (codes "500ms") then some (pos 500000000) else none)

seconds-KnowsDefaults : KnowsDefaults seconds
seconds-KnowsDefaults = record { twelve_seconds = refl; half_a_second = refl }

abbrev pub environment : Text → Text
environment = value_in (
    (codes "DATABASE_URL", codes "postgres://db")
    ∷ (codes "CHAIN_ID", codes "1")
    ∷ (codes "RPC_URL", codes "http://node")
    ∷ (codes "FACTORY_ADDRESS", codes "0x9")
    ∷ (codes "START_BLOCK", codes "2")
    ∷ [])

load_indexer-IsComplete_example :
    Means
      (λ cfg.
        IsComplete environment seconds seconds-KnowsDefaults cfg
        × (cfg.rpc_url ≢ [])
        × (cfg.factory_addr ≢ []))
      (IsJust environment seconds)
      (load_indexer environment seconds)
load_indexer-IsComplete_example = load_indexer-IsComplete environment seconds seconds-KnowsDefaults

abbrev settings : Config
settings = record {
  database_url = codes "postgres://db";
  database_read_url = codes "postgres://replica";
  chain_id = pos 1;
  log_level = codes "debug";
  log_format = codes "text";
  host = codes "0.0.0.0";
  port = codes "80";
  rpc_url = codes "http://node";
  factory_addr = codes "0x9";
  start_block = 2;
  poll_interval = pos 12000000000;
  block_batch_size = 0;
  confirmations = 2;
  header_concurrency = negsuc 0;
  max_retries = pos 5;
  base_delay = pos 500000000;
}

settings-IsWritable : IsWritable settings
settings-IsWritable = record {
  database_url = λ e. cc;
  database_read_url = λ e. cc;
  chain_id = omega arith;
  some_chain = λ e. ground arith;
  log_level = λ e. cc;
  log_format = λ e. cc;
  host = λ e. cc;
  port = λ e. cc;
  rpc_url = λ e. cc;
  factory_addr = λ e. cc;
  start_block = omega arith;
  block_batch_size = omega arith;
  confirmations = omega arith;
  header_concurrency = omega arith;
  max_retries = omega arith;
}

load_indexer_written_example :
    load_indexer (value_in (variables settings (codes "12s") (codes "500ms"))) seconds ≡ ok settings
load_indexer_written_example =
    load_indexer_written seconds settings (codes "12s") (codes "500ms") settings-IsWritable
      (λ e. cc) refl (λ e. cc) refl
