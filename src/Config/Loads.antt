-- ===== src/Config/Loads.antt =====
-- `LoadAPI` and `LoadIndexer`, as a whole (internal/config/config.go).
use cca_go_indexer.Base.{
  zero, suc, ◌≡◌, ◌≢◌, refl, ap, sym, ◌∙◌, inl, inr, true, false, Option, some, [], arith,
  Bool-cases,
}
use cca_go_indexer.BigInt.{ℤ, pos, negsuc}
use cca_go_indexer.Config.{
  Config, ConfigError, required, is_zero, validate_base, parse_int_env, parse_uint64_env,
  parse_chain_id, parse_duration_env, load_base, load_api, validate_indexer, load_indexer,
}
use cca_go_indexer.Config.Loaded.{
  Means, Means-bind, KnowsDefaults, IsJust, IsReadFrom, env_or_default-ReadsText,
  parse_int_env-Means, parse_chain_id-Means, parse_uint64_env-Means, parse_duration_env-Means,
}
use cca_go_indexer.Text.{Text, codes, text_eq, text_eq_iff}

is_zero_sound : (z : ℤ) → is_zero z ≡ true → z ≡ pos 0
is_zero_sound (pos zero) e = refl
is_zero_sound (pos (suc n)) e = ground arith
is_zero_sound (negsuc n) e = ground arith

not_zero : (z : ℤ) → is_zero z ≡ false → z ≢ pos 0
not_zero z e same = let zero_here : is_zero z ≡ true = rw same refl in ground arith

not_empty : (s : Text) → text_eq s [] ≡ false → s ≢ []
not_empty s e same = let here : text_eq s [] ≡ true = (text_eq_iff s []).1 same in ground arith

module _ (getenv : Text → Text) (parse_duration : Text → Option ℤ)
    (known : KnowsDefaults parse_duration) where
  abbrev Justified : ConfigError → Type 0
  Justified = IsJust getenv parse_duration

  load_base-IsReadFrom :
      Means (IsReadFrom getenv parse_duration) Justified (load_base getenv parse_duration)
  unfolding load_base
  load_base-IsReadFrom =
      Means-bind _ _ Justified (parse_chain_id getenv) _
        (parse_chain_id-Means getenv parse_duration)
        (λ chain_id a.
          Means-bind _ _ Justified
            (parse_duration_env getenv parse_duration (codes "POLL_INTERVAL") (codes "12s")) _
            (parse_duration_env-Means getenv parse_duration (codes "POLL_INTERVAL") (codes "12s") _
              known.twelve_seconds)
            (λ poll_interval b.
              Means-bind _ _ Justified (parse_uint64_env getenv (codes "BLOCK_BATCH_SIZE") 100) _
                (parse_uint64_env-Means getenv parse_duration (codes "BLOCK_BATCH_SIZE") 100
                  (omega arith))
                (λ block_batch_size d.
                  Means-bind _ _ Justified (parse_uint64_env getenv (codes "CONFIRMATIONS") 0) _
                    (parse_uint64_env-Means getenv parse_duration (codes "CONFIRMATIONS") 0
                      (omega arith))
                    (λ confirmations e.
                      Means-bind _ _ Justified (parse_uint64_env getenv (codes "START_BLOCK") 0) _
                        (parse_uint64_env-Means getenv parse_duration (codes "START_BLOCK") 0
                          (omega arith))
                        (λ start_block g.
                          Means-bind _ _ Justified
                            (parse_int_env getenv (codes "HEADER_CONCURRENCY") (pos 1)) _
                            (parse_int_env-Means getenv parse_duration (codes "HEADER_CONCURRENCY")
                              (pos 1) (omega arith))
                            (λ header_concurrency h.
                              Means-bind _ _ Justified
                                (parse_int_env getenv (codes "RETRY_MAX_RETRIES") (pos 5)) _
                                (parse_int_env-Means getenv parse_duration
                                  (codes "RETRY_MAX_RETRIES") (pos 5) (omega arith))
                                (λ max_retries i.
                                  Means-bind _ _ Justified
                                    (parse_duration_env getenv parse_duration
                                      (codes "RETRY_BASE_DELAY") (codes "500ms"))
                                    _
                                    (parse_duration_env-Means getenv parse_duration
                                      (codes "RETRY_BASE_DELAY") (codes "500ms") _
                                      known.half_a_second)
                                    (λ base_delay j. record {
                                      database_url = refl;
                                      database_read_url =
                                          env_or_default-ReadsText getenv parse_duration
                                            (codes "DATABASE_READ_URL")
                                            (getenv (codes "DATABASE_URL"));
                                      chain_id = a;
                                      log_level =
                                          env_or_default-ReadsText getenv parse_duration
                                            (codes "LOG_LEVEL") (codes "info");
                                      log_format =
                                          env_or_default-ReadsText getenv parse_duration
                                            (codes "LOG_FORMAT") (codes "json");
                                      host =
                                          env_or_default-ReadsText getenv parse_duration
                                            (codes "HOST") (codes "127.0.0.1");
                                      port =
                                          env_or_default-ReadsText getenv parse_duration
                                            (codes "PORT") (codes "8080");
                                      rpc_url = refl;
                                      factory_addr = refl;
                                      start_block = g;
                                      poll_interval = b;
                                      block_batch_size = d;
                                      confirmations = e;
                                      header_concurrency = h;
                                      max_retries = i;
                                      base_delay = j;
                                    }))))))))

  -- What is required of both commands, and of the indexer.
  pub record IsComplete (cfg : Config) : Type 0 where
    pub read : IsReadFrom getenv parse_duration cfg
    pub database : cfg.database_url ≢ []
    pub chain : cfg.chain_id ≢ pos 0

  zero_chain :
      (cfg : Config)
      → IsReadFrom getenv parse_duration cfg
      → cfg.chain_id ≡ pos 0
      → Justified (required (codes "CHAIN_ID"))
  zero_chain cfg read e = elim read.chain_id.1 [
    | inl (unset, default) ↦ inl unset
    | inr written ↦ inr (refl, written ∙ ap some e)
  ]

  validate_base-IsComplete :
      (cfg : Config)
      → IsReadFrom getenv parse_duration cfg
      → Means (λ _. IsComplete cfg) Justified (validate_base cfg)
  unfolding validate_base
  validate_base-IsComplete cfg read = elim (Bool-cases (text_eq cfg.database_url [])) [
    | inl e ↦ rw e (inl (sym read.database_url ∙ (text_eq_iff cfg.database_url []).0 e))
    | inr e ↦ elim (Bool-cases (is_zero cfg.chain_id)) [
      | inl z ↦ rw (e, z) (zero_chain cfg read (is_zero_sound cfg.chain_id z))
      | inr z ↦
          rw (e, z)
            (record {
              read = read;
              database = not_empty cfg.database_url e;
              chain = not_zero cfg.chain_id z;
            })
    ]
  ]

  validate_indexer-Means :
      (cfg : Config)
      → IsReadFrom getenv parse_duration cfg
      → Means (λ _. (cfg.rpc_url ≢ []) × (cfg.factory_addr ≢ [])) Justified (validate_indexer cfg)
  unfolding validate_indexer
  validate_indexer-Means cfg read = elim (Bool-cases (text_eq cfg.rpc_url [])) [
    | inl e ↦ rw e (inl (sym read.rpc_url ∙ (text_eq_iff cfg.rpc_url []).0 e))
    | inr e ↦ elim (Bool-cases (text_eq cfg.factory_addr [])) [
      | inl z ↦ rw (e, z) (inl (sym read.factory_addr ∙ (text_eq_iff cfg.factory_addr []).0 z))
      | inr z ↦ rw (e, z) (not_empty cfg.rpc_url e, not_empty cfg.factory_addr z)
    ]
  ]

  -- LoadAPI returns a configuration whose fields are what the environment says, with a database and a
  -- chain that is not 0, or an error that the environment gives cause for.
  pub load_api-IsComplete : Means IsComplete Justified (load_api getenv parse_duration)
  unfolding load_api
  load_api-IsComplete =
      Means-bind (IsReadFrom getenv parse_duration) IsComplete Justified
        (load_base getenv parse_duration) _ load_base-IsReadFrom
        (λ cfg read.
          Means-bind (λ _. IsComplete cfg) IsComplete Justified (validate_base cfg) _
            (validate_base-IsComplete cfg read) (λ _ complete. complete))

  -- LoadIndexer returns a configuration whose fields are what the environment says, numbers within
  -- their 64 bits, with a database, a chain that is not 0, a node and a factory, or an error that the
  -- environment gives cause for: a variable that is set and is no such number or duration, or a
  -- required one that is missing.
  pub load_indexer-IsComplete :
      Means
        (λ cfg. IsComplete cfg × (cfg.rpc_url ≢ []) × (cfg.factory_addr ≢ []))
        Justified
        (load_indexer getenv parse_duration)
  unfolding load_indexer
  load_indexer-IsComplete =
      Means-bind (IsReadFrom getenv parse_duration) _ Justified (load_base getenv parse_duration) _
        load_base-IsReadFrom
        (λ cfg read.
          Means-bind (λ _. IsComplete cfg) _ Justified (validate_base cfg) _
            (validate_base-IsComplete cfg read)
            (λ _ complete.
              Means-bind (λ _. (cfg.rpc_url ≢ []) × (cfg.factory_addr ≢ [])) _ Justified
                (validate_indexer cfg) _ (validate_indexer-Means cfg read)
                (λ _ more. (complete, more.0, more.1))))
