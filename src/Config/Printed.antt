-- ===== src/Config/Printed.antt =====
-- That a configuration written into the environment is loaded back (internal/config/config.go).
use cca_go_indexer.Base.{
  ℕ, zero, suc, ◌≡◌, ◌≢◌, refl, false, Option, some, List, [], ◌∷◌, if◌then◌else◌,
}
use cca_go_indexer.Base.Effect.{ok}
use cca_go_indexer.BigInt.{
  ℤ, pos, negsuc, to_string, set_string-to_string, digits, digits-head, read_digits-digits,
}
use cca_go_indexer.Config.{
  Config, is_zero, validate_base, parse_int_env, parse_uint64_env, parse_chain_id,
  parse_duration_env, load_base, load_indexer, validate_indexer,
}
use cca_go_indexer.Strconv.{IsUint64, IsInt64, parse_uint_iff, parse_int_iff}
use cca_go_indexer.Text.{Text, codes, text_eq}

-- An environment that sets these variables.
abbrev pub value_in : List (Text × Text) → Text → Text
value_in [] key = []
value_in ((k, v) ∷ vs) key = if text_eq k key then v else value_in vs key

-- The variables of a configuration, with two texts of its durations.
abbrev pub variables : Config → Text → Text → List (Text × Text)
variables cfg poll delay =
    (codes "DATABASE_URL", cfg.database_url)
    ∷ (codes "DATABASE_READ_URL", cfg.database_read_url)
    ∷ (codes "CHAIN_ID", to_string cfg.chain_id)
    ∷ (codes "LOG_LEVEL", cfg.log_level)
    ∷ (codes "LOG_FORMAT", cfg.log_format)
    ∷ (codes "HOST", cfg.host)
    ∷ (codes "PORT", cfg.port)
    ∷ (codes "RPC_URL", cfg.rpc_url)
    ∷ (codes "FACTORY_ADDRESS", cfg.factory_addr)
    ∷ (codes "START_BLOCK", digits cfg.start_block)
    ∷ (codes "POLL_INTERVAL", poll)
    ∷ (codes "BLOCK_BATCH_SIZE", digits cfg.block_batch_size)
    ∷ (codes "CONFIRMATIONS", digits cfg.confirmations)
    ∷ (codes "HEADER_CONCURRENCY", to_string cfg.header_concurrency)
    ∷ (codes "RETRY_MAX_RETRIES", to_string cfg.max_retries)
    ∷ (codes "RETRY_BASE_DELAY", delay)
    ∷ []

-- What a configuration is that can be written: no text is empty, and the numbers have 64 bits.
pub record IsWritable (cfg : Config) : Type 0 where
  pub database_url : cfg.database_url ≢ []
  pub database_read_url : cfg.database_read_url ≢ []
  pub chain_id : IsInt64 cfg.chain_id
  pub some_chain : cfg.chain_id ≢ pos 0
  pub log_level : cfg.log_level ≢ []
  pub log_format : cfg.log_format ≢ []
  pub host : cfg.host ≢ []
  pub port : cfg.port ≢ []
  pub rpc_url : cfg.rpc_url ≢ []
  pub factory_addr : cfg.factory_addr ≢ []
  pub start_block : IsUint64 cfg.start_block
  pub block_batch_size : IsUint64 cfg.block_batch_size
  pub confirmations : IsUint64 cfg.confirmations
  pub header_concurrency : IsInt64 cfg.header_concurrency
  pub max_retries : IsInt64 cfg.max_retries

filled : (s : Text) → s ≢ [] → text_eq s [] ≡ false
filled [] h = absurd (h refl)
filled (c ∷ s) h = refl

digits_filled : (n : ℕ) → text_eq (digits n) [] ≡ false
digits_filled n = let (c, s, e, d) = digits-head n in rw e refl

to_string_filled : (z : ℤ) → text_eq (to_string z) [] ≡ false
unfolding to_string
to_string_filled (pos n) = digits_filled n
to_string_filled (negsuc n) = refl

is_zero_not : (z : ℤ) → z ≢ pos 0 → is_zero z ≡ false
is_zero_not (pos zero) h = absurd (h refl)
is_zero_not (pos (suc n)) h = refl
is_zero_not (negsuc n) h = refl

module _ (getenv : Text → Text) where
  parse_int_env-to_string :
      (key : Text) (default z : ℤ)
      → IsInt64 z
      → getenv key ≡ to_string z
      → parse_int_env getenv key default ≡ ok z
  unfolding parse_int_env
  parse_int_env-to_string key default z h e =
      rw (e, to_string_filled z, (parse_int_iff (to_string z) z).1 (set_string-to_string z, h)) refl

  parse_uint64_env-digits :
      (key : Text) (default n : ℕ)
      → IsUint64 n
      → getenv key ≡ digits n
      → parse_uint64_env getenv key default ≡ ok n
  unfolding parse_uint64_env
  parse_uint64_env-digits key default n h e =
      rw (e, digits_filled n, (parse_uint_iff (digits n) n).1 (read_digits-digits n, h)) refl

  parse_chain_id-to_string :
      (z : ℤ) → IsInt64 z → getenv (codes "CHAIN_ID") ≡ to_string z → parse_chain_id getenv ≡ ok z
  unfolding parse_chain_id
  parse_chain_id-to_string z h e =
      rw (e, to_string_filled z, (parse_int_iff (to_string z) z).1 (set_string-to_string z, h)) refl

  parse_duration_env_written :
      (parse_duration : Text → Option ℤ) (key text default : Text) (d : ℤ)
      → text ≢ []
      → parse_duration text ≡ some d
      → getenv key ≡ text
      → parse_duration_env getenv parse_duration key default ≡ ok d
  unfolding parse_duration_env
  parse_duration_env_written parse_duration key text default d h read e =
      rw (e, filled text h, read) refl

module _ (parse_duration : Text → Option ℤ) (cfg : Config) (poll delay : Text)
    (w : IsWritable cfg) where
  abbrev getenv_of : Text → Text
  getenv_of = value_in (variables cfg poll delay)

  load_base_written :
      poll ≢ []
      → parse_duration poll ≡ some cfg.poll_interval
      → delay ≢ []
      → parse_duration delay ≡ some cfg.base_delay
      → load_base getenv_of parse_duration ≡ ok cfg
  unfolding load_base
  load_base_written p read d read' =
      rw
        (
          parse_chain_id-to_string getenv_of cfg.chain_id w.chain_id refl,
          parse_duration_env_written getenv_of parse_duration (codes "POLL_INTERVAL") poll
              (codes "12s") cfg.poll_interval p read refl,
          parse_uint64_env-digits getenv_of (codes "BLOCK_BATCH_SIZE") 100 cfg.block_batch_size
              w.block_batch_size refl,
          parse_uint64_env-digits getenv_of (codes "CONFIRMATIONS") 0 cfg.confirmations
              w.confirmations refl,
          parse_uint64_env-digits getenv_of (codes "START_BLOCK") 0 cfg.start_block w.start_block
              refl,
          parse_int_env-to_string getenv_of (codes "HEADER_CONCURRENCY") (pos 1)
              cfg.header_concurrency w.header_concurrency refl,
          parse_int_env-to_string getenv_of (codes "RETRY_MAX_RETRIES") (pos 5) cfg.max_retries
              w.max_retries refl,
          parse_duration_env_written getenv_of parse_duration (codes "RETRY_BASE_DELAY") delay
              (codes "500ms") cfg.base_delay d read' refl,
          filled cfg.database_read_url w.database_read_url,
          filled cfg.log_level w.log_level,
          filled cfg.log_format w.log_format,
          filled cfg.host w.host,
          filled cfg.port w.port,
        )
        refl

  -- A configuration with no empty text, a chain that is not 0 and numbers of 64 bits, whose variables
  -- are set to its texts, its numbers in decimal and texts of its two durations, is what LoadIndexer
  -- returns.
  pub load_indexer_written :
      poll ≢ []
      → parse_duration poll ≡ some cfg.poll_interval
      → delay ≢ []
      → parse_duration delay ≡ some cfg.base_delay
      → load_indexer (value_in (variables cfg poll delay)) parse_duration ≡ ok cfg
  unfolding load_indexer validate_base validate_indexer
  load_indexer_written p read d read' =
      rw
        (
          load_base_written p read d read',
          filled cfg.database_url w.database_url,
          is_zero_not cfg.chain_id w.some_chain,
          filled cfg.rpc_url w.rpc_url,
          filled cfg.factory_addr w.factory_addr,
        )
        refl
