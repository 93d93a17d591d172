-- ===== src/Config.antt =====
-- The configuration of both commands (internal/config/config.go): what is read of the environment, and
-- what is required of it. `getenv` is the environment after `godotenv.Load`, and `parse_duration` is
-- `time.ParseDuration`, in nanoseconds.
pub mod Loaded
pub mod Loads
pub mod Printed
use cca_go_indexer.Base.{ℕ, zero, Bool, true, false, Option, none, some, [], if◌then◌else◌}
use cca_go_indexer.Base.Effect.{Result, ok, err}
use cca_go_indexer.BigInt.{ℤ, pos, negsuc}
use cca_go_indexer.Strconv.{NumError, parse_uint, parse_int}
use cca_go_indexer.Text.{Text, codes, text_eq}

-- `Config`; the last two fields are those of its `eth.RetryConfig`.
pub record Config : Type 0 where
  pub database_url : Text
  pub database_read_url : Text
  pub chain_id : ℤ
  pub log_level : Text
  pub log_format : Text
  pub host : Text
  pub port : Text
  pub rpc_url : Text
  pub factory_addr : Text
  pub start_block : ℕ
  pub poll_interval : ℤ
  pub block_batch_size : ℕ
  pub confirmations : ℕ
  pub header_concurrency : ℤ
  pub max_retries : ℤ
  pub base_delay : ℤ

-- "parsing %s: %w", by what was parsed, and "%s is required".
pub data ConfigError : Type 0 where
  parsing_int parsing_uint : Text → NumError → ConfigError
  parsing_duration required : Text → ConfigError

abbrev pub Load : Type 0 → Type 0
Load A = Result ConfigError A

-- What follows a step that may fail.
infixl 5 ◌>>=◌ ◌>>◌
abbrev pub ◌>>=◌ : {A B : Type 0} → Load A → (A → Load B) → Load B
ok a >>= f = f a
err e >>= f = err e

abbrev pub ◌>>◌ : {A B : Type 0} → Load A → Load B → Load B
m >> k = m >>= λ _. k

-- An error of `strconv`, wrapped.
abbrev pub parsed : {A : Type 0} → (NumError → ConfigError) → Result NumError A → Load A
parsed f (ok a) = ok a
parsed f (err e) = err (f e)

-- `validateBase`
abbrev pub is_zero : ℤ → Bool
is_zero (pos zero) = true
is_zero z = false

unfoldable pub validate_base : Config → Load (Unit {0})
validate_base cfg =
    if text_eq cfg.database_url []
    then err (required (codes "DATABASE_URL"))
    else (if is_zero cfg.chain_id then err (required (codes "CHAIN_ID")) else ok tt)

-- The last two guards of `LoadIndexer`.
unfoldable pub validate_indexer : Config → Load (Unit {0})
validate_indexer cfg =
    if text_eq cfg.rpc_url []
    then err (required (codes "RPC_URL"))
    else (if text_eq cfg.factory_addr [] then err (required (codes "FACTORY_ADDRESS")) else ok tt)

module _ (getenv : Text → Text) where
  -- `envOrDefault`, `parseIntEnv` and `parseUint64Env`
  abbrev pub env_or_default : Text → Text → Text
  env_or_default key default = if text_eq (getenv key) [] then default else getenv key

  unfoldable pub parse_int_env : Text → ℤ → Load ℤ
  parse_int_env key default =
      if text_eq (getenv key) []
      then ok default
      else parsed (parsing_int key) (parse_int (getenv key))

  unfoldable pub parse_uint64_env : Text → ℕ → Load ℕ
  parse_uint64_env key default =
      if text_eq (getenv key) []
      then ok default
      else parsed (parsing_uint key) (parse_uint (getenv key))

  -- `CHAIN_ID`, which is 0 where it is not set.
  unfoldable pub parse_chain_id : Load ℤ
  parse_chain_id =
      if text_eq (getenv (codes "CHAIN_ID")) []
      then ok (pos 0)
      else parsed (parsing_int (codes "CHAIN_ID")) (parse_int (getenv (codes "CHAIN_ID")))

  module _ (parse_duration : Text → Option ℤ) where
    -- `parseDurationEnv`
    abbrev pub duration_of : Text → Option ℤ → Load ℤ
    duration_of key none = err (parsing_duration key)
    duration_of key (some d) = ok d

    unfoldable pub parse_duration_env : Text → Text → Load ℤ
    parse_duration_env key default = duration_of key (parse_duration (env_or_default key default))

    -- `loadBase`
    unfoldable pub load_base : Load Config
    unfolding parse_int_env parse_uint64_env parse_chain_id parse_duration_env
    load_base = do
      chain_id ← parse_chain_id
      poll_interval ← parse_duration_env (codes "POLL_INTERVAL") (codes "12s")
      block_batch_size ← parse_uint64_env (codes "BLOCK_BATCH_SIZE") 100
      confirmations ← parse_uint64_env (codes "CONFIRMATIONS") 0
      start_block ← parse_uint64_env (codes "START_BLOCK") 0
      header_concurrency ← parse_int_env (codes "HEADER_CONCURRENCY") (pos 1)
      max_retries ← parse_int_env (codes "RETRY_MAX_RETRIES") (pos 5)
      base_delay ← parse_duration_env (codes "RETRY_BASE_DELAY") (codes "500ms")
      ok (record {
        database_url = getenv (codes "DATABASE_URL");
        database_read_url =
            env_or_default (codes "DATABASE_READ_URL") (getenv (codes "DATABASE_URL"));
        chain_id = chain_id;
        log_level = env_or_default (codes "LOG_LEVEL") (codes "info");
        log_format = env_or_default (codes "LOG_FORMAT") (codes "json");
        host = env_or_default (codes "HOST") (codes "127.0.0.1");
        port = env_or_default (codes "PORT") (codes "8080");
        rpc_url = getenv (codes "RPC_URL");
        factory_addr = getenv (codes "FACTORY_ADDRESS");
        start_block = start_block;
        poll_interval = poll_interval;
        block_batch_size = block_batch_size;
        confirmations = confirmations;
        header_concurrency = header_concurrency;
        max_retries = max_retries;
        base_delay = base_delay;
      })

    -- `LoadAPI`
    unfoldable pub load_api : Load Config
    unfolding load_base validate_base
    load_api = do cfg ← load_base; validate_base cfg; ok cfg

    -- `LoadIndexer`
    unfoldable pub load_indexer : Load Config
    unfolding load_base validate_base validate_indexer
    load_indexer = do cfg ← load_base; validate_base cfg; validate_indexer cfg; ok cfg
