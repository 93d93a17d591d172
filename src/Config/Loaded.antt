-- ===== src/Config/Loaded.antt =====
-- What the loaders of the configuration promise: values that are what the environment says, and errors
-- that it gives cause for (internal/config/config.go).
use cca_go_indexer.Base.{
  ℕ, ◌≡◌, ◌≢◌, ◌⊎◌, refl, inl, inr, true, false, Option, none, some, [], arith, Bool-cases,
  Option-cases,
}
use cca_go_indexer.Base.Effect.{Result, ok, err}
use cca_go_indexer.BigInt.{ℤ, pos, read_digits, set_string}
use cca_go_indexer.Config.{
  Config, ConfigError, parsing_int, parsing_uint, parsing_duration, required, Load, ◌>>=◌, parsed,
  env_or_default, parse_int_env, parse_uint64_env, parse_chain_id, parse_duration_env,
}
use cca_go_indexer.Strconv.{
  NumError, parse_uint, parse_int, IsUint64, IsInt64, parse_uint_iff, parse_int_iff,
}
use cca_go_indexer.Text.{Text, codes, text_eq, text_eq_iff}

-- A load meets `Q` if it has a value, and `X` if it has an error.
abbrev pub Means : {A : Type 0} → (A → Type 0) → (ConfigError → Type 0) → Load A → Type 0
Means Q X (ok a) = Q a
Means Q X (err e) = X e

pub Means-bind :
    {A B : Type 0} (Q : A → Type 0) (Q' : B → Type 0) (X : ConfigError → Type 0) (r : Load A)
    (f : A → Load B)
    → Means Q X r
    → ((a : A) → Q a → Means Q' X (f a))
    → Means Q' X (r >>= f)
Means-bind Q Q' X (ok a) f h k = k a h
Means-bind Q Q' X (err e) f h k = h

Means-parsed :
    {A : Type 0} (Q : A → Type 0) (X : ConfigError → Type 0) (f : NumError → ConfigError)
    (r : Result NumError A)
    → ((a : A) → r ≡ ok a → Q a)
    → ((e : NumError) → r ≡ err e → X (f e))
    → Means Q X (parsed f r)
Means-parsed Q X f (ok a) h k = h a refl
Means-parsed Q X f (err e) h k = k e refl

-- What `time.ParseDuration` documents of the two defaults, in nanoseconds.
pub record KnowsDefaults (parse_duration : Text → Option ℤ) : Type 0 where
  pub twelve_seconds : parse_duration (codes "12s") ≡ some (pos 12000000000)
  pub half_a_second : parse_duration (codes "500ms") ≡ some (pos 500000000)

module _ (getenv : Text → Text) (parse_duration : Text → Option ℤ) where
  -- The variable is not set and the value is the default, or the variable writes the value.
  abbrev pub ReadsText : Text → Text → Text → Type 0
  ReadsText key default t =
      ((getenv key ≡ []) × (t ≡ default)) ⊎ ((getenv key ≢ []) × (t ≡ getenv key))

  abbrev pub ReadsInt : Text → ℤ → ℤ → Type 0
  ReadsInt key default z =
      IsInt64 z × (((getenv key ≡ []) × (z ≡ default)) ⊎ (set_string (getenv key) ≡ some z))

  abbrev pub ReadsUint : Text → ℕ → ℕ → Type 0
  ReadsUint key default n =
      IsUint64 n × (((getenv key ≡ []) × (n ≡ default)) ⊎ (read_digits (getenv key) ≡ some n))

  abbrev pub ReadsDuration : Text → ℤ → ℤ → Type 0
  ReadsDuration key default d =
      ((getenv key ≡ []) × (d ≡ default))
      ⊎ ((getenv key ≢ []) × (parse_duration (getenv key) ≡ some d))

  -- A number of 64 bits is not what the variable writes; a variable is missing, or the chain is 0.
  abbrev pub IsJust : ConfigError → Type 0
  IsJust (parsing_int key e) =
      (getenv key ≢ []) × ¬ ((z : ℤ) × IsInt64 z × (set_string (getenv key) ≡ some z))
  IsJust (parsing_uint key e) =
      (getenv key ≢ []) × ¬ ((n : ℕ) × IsUint64 n × (read_digits (getenv key) ≡ some n))
  IsJust (parsing_duration key) = (getenv key ≢ []) × (parse_duration (getenv key) ≡ none)
  IsJust (required key) =
      (getenv key ≡ []) ⊎ ((key ≡ codes "CHAIN_ID") × (set_string (getenv key) ≡ some (pos 0)))

  -- Every field is what its variable says.
  pub record IsReadFrom (cfg : Config) : Type 0 where
    pub database_url : cfg.database_url ≡ getenv (codes "DATABASE_URL")
    pub database_read_url :
        ReadsText (codes "DATABASE_READ_URL") cfg.database_url cfg.database_read_url
    pub chain_id : ReadsInt (codes "CHAIN_ID") (pos 0) cfg.chain_id
    pub log_level : ReadsText (codes "LOG_LEVEL") (codes "info") cfg.log_level
    pub log_format : ReadsText (codes "LOG_FORMAT") (codes "json") cfg.log_format
    pub host : ReadsText (codes "HOST") (codes "127.0.0.1") cfg.host
    pub port : ReadsText (codes "PORT") (codes "8080") cfg.port
    pub rpc_url : cfg.rpc_url ≡ getenv (codes "RPC_URL")
    pub factory_addr : cfg.factory_addr ≡ getenv (codes "FACTORY_ADDRESS")
    pub start_block : ReadsUint (codes "START_BLOCK") 0 cfg.start_block
    pub poll_interval : ReadsDuration (codes "POLL_INTERVAL") (pos 12000000000) cfg.poll_interval
    pub block_batch_size : ReadsUint (codes "BLOCK_BATCH_SIZE") 100 cfg.block_batch_size
    pub confirmations : ReadsUint (codes "CONFIRMATIONS") 0 cfg.confirmations
    pub header_concurrency : ReadsInt (codes "HEADER_CONCURRENCY") (pos 1) cfg.header_concurrency
    pub max_retries : ReadsInt (codes "RETRY_MAX_RETRIES") (pos 5) cfg.max_retries
    pub base_delay : ReadsDuration (codes "RETRY_BASE_DELAY") (pos 500000000) cfg.base_delay

  unset : (key : Text) → text_eq (getenv key) [] ≡ true → getenv key ≡ []
  unset key e = (text_eq_iff (getenv key) []).0 e

  is_set : (key : Text) → text_eq (getenv key) [] ≡ false → getenv key ≢ []
  is_set key e same =
      let here : text_eq (getenv key) [] ≡ true = (text_eq_iff (getenv key) []).1 same in
      ground arith

  pub env_or_default-ReadsText :
      (key default : Text) → ReadsText key default (env_or_default getenv key default)
  env_or_default-ReadsText key default = elim (Bool-cases (text_eq (getenv key) [])) [
    | inl e ↦ rw e (inl (unset key e, refl))
    | inr e ↦ rw e (inr (is_set key e, refl))
  ]

  parsed-ReadsInt :
      (key : Text) (default : ℤ)
      → text_eq (getenv key) [] ≡ false
      → Means (ReadsInt key default) IsJust (parsed (parsing_int key) (parse_int (getenv key)))
  parsed-ReadsInt key default e =
      Means-parsed (ReadsInt key default) IsJust (parsing_int key) (parse_int (getenv key))
        (λ z read.
          let (written, bound) = (parse_int_iff (getenv key) z).0 read in (bound, inr written))
        (λ x failed. (
          is_set key e,
          λ (z, bound, written).
              let read = (parse_int_iff (getenv key) z).1 (written, bound) in
              ground (arith, read, failed),
        ))

  pub parse_int_env-Means :
      (key : Text) (default : ℤ)
      → IsInt64 default
      → Means (ReadsInt key default) IsJust (parse_int_env getenv key default)
  unfolding parse_int_env
  parse_int_env-Means key default h = elim (Bool-cases (text_eq (getenv key) [])) [
    | inl e ↦ rw e (h, inl (unset key e, refl))
    | inr e ↦ rw e (parsed-ReadsInt key default e)
  ]

  pub parse_chain_id-Means :
      Means (ReadsInt (codes "CHAIN_ID") (pos 0)) IsJust (parse_chain_id getenv)
  unfolding parse_chain_id
  parse_chain_id-Means = elim (Bool-cases (text_eq (getenv (codes "CHAIN_ID")) [])) [
    | inl e ↦ rw e (omega arith, inl (unset (codes "CHAIN_ID") e, refl))
    | inr e ↦ rw e (parsed-ReadsInt (codes "CHAIN_ID") (pos 0) e)
  ]

  pub parse_uint64_env-Means :
      (key : Text) (default : ℕ)
      → IsUint64 default
      → Means (ReadsUint key default) IsJust (parse_uint64_env getenv key default)
  unfolding parse_uint64_env
  parse_uint64_env-Means key default h = elim (Bool-cases (text_eq (getenv key) [])) [
    | inl e ↦ rw e (h, inl (unset key e, refl))
    | inr e ↦ rw e (
        Means-parsed (ReadsUint key default) IsJust (parsing_uint key) (parse_uint (getenv key))
          (λ n read.
            let (written, bound) = (parse_uint_iff (getenv key) n).0 read in (bound, inr written))
          (λ x failed. (
            is_set key e,
            λ (n, bound, written).
                let read = (parse_uint_iff (getenv key) n).1 (written, bound) in
                ground (arith, read, failed),
          )))
  ]

  pub parse_duration_env-Means :
      (key text : Text) (default : ℤ)
      → parse_duration text ≡ some default
      → Means (ReadsDuration key default) IsJust (parse_duration_env getenv parse_duration key text)
  unfolding parse_duration_env
  parse_duration_env-Means key text default known = elim (Bool-cases (text_eq (getenv key) [])) [
    | inl e ↦ rw (e, known) (inl (unset key e, refl))
    | inr e ↦ rw e (elim (Option-cases (parse_duration (getenv key))) [
      | inl failed ↦ rw failed (is_set key e, failed)
      | inr (d, read) ↦ rw read (inr (is_set key e, read))
    ])
  ]
