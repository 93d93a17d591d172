-- ===== src/Commands/ApiMain.antt =====
-- `main` of cmd/api/main.go: the configuration, the store, `run`, and the exit.
use cca_go_indexer.Base.{
  ℕ, ◌≡◌, ◌⊎◌, refl, ap, sym, ◌∙◌, inl, inr, Bool, true, false, ◌&&◌, Option, none, some, [], arith,
  if◌then◌else◌,
}
use mathlib.Core.Path.{subst}
use cca_go_indexer.Base.Effect.{Result, ok, err, Ends}
use cca_go_indexer.BigInt.{ℤ}
use cca_go_indexer.Commands.ApiEnds.{IsReported, Reach-IsSound, is_open, sent_error}
use cca_go_indexer.Commands.ApiRun.{
  RunError, server_error, shutdown_error, Waiting, selecting, shutting_down, returned, System,
  Reach, ServeError,
}
use cca_go_indexer.Config.{Config, ConfigError, load_api}
use cca_go_indexer.Store.Opening.{
  Services, Resources, OpenError, all_closed, new, IsOpened, new-IsOpened,
}
use cca_go_indexer.Text.{Text, codes, text_eq}

-- `api.ServerConfig`, and the host that `NewServer` binds to.
pub record ServerConfig : Type 0 where
  pub host : Text
  pub port : Text

abbrev pub server_config : Config → ServerConfig
server_config cfg = record { host = cfg.host; port = cfg.port }

abbrev pub bound_host : ServerConfig → Text
bound_host cfg = if text_eq cfg.host [] then codes "127.0.0.1" else cfg.host

-- `main` is in `run`, or has left with an exit code, the pool open or closed.
pub data ApiEnding : Type 0 where
  in_run : ApiEnding
  left_with : ℕ → Bool → ApiEnding

abbrev pub exit_code : Option RunError → ℕ
exit_code none = 0
exit_code (some e) = 1

-- After `run`, which has closed the store when it returns.
abbrev pub after_serving : Waiting → Bool → ApiEnding
after_serving (returned r) pool = left_with (exit_code r) pool
after_serving w pool = in_run

abbrev pub after_connecting : System → Result OpenError (Unit {0}) × Resources → ApiEnding
after_connecting s (err e, r) = left_with 1 r.pool_open
after_connecting s (ok _, r) = after_serving s.waiting (r.pool_open && s.store_open)

abbrev pub after_load_api : Services → System → Result ConfigError Config → ApiEnding
after_load_api services s (err e) = left_with 1 false
after_load_api services s (ok cfg) = after_connecting s (new services all_closed)

-- `main`, where the goroutines of `run` have come to the given state.
unfoldable pub api_main : (Text → Text) → (Text → Option ℤ) → Services → System → ApiEnding
api_main getenv parse_duration services s =
    after_load_api services s (load_api getenv parse_duration)

-- The loaded configuration, if there is one.
abbrev pub loaded_of : Result ConfigError Config → Option Config
loaded_of (ok cfg) = some cfg
loaded_of (err e) = none

-- What an exit tells.
abbrev pub EndOf : Services → System → Option Config → ℕ → Bool → Type 0
EndOf services s loaded code pool =
    (pool ≡ false)
    × ((code ≡ 1)
        ⊎ ((code ≡ 0)
            × ((cfg : Config) × (loaded ≡ some cfg))
            × IsOpened services (record all_closed { pool_open = true })
            × (s.waiting ≡ returned none)
            × (s.done ≡ true)))

module _ (services : Services) {n : ℕ} {s : System} (reach : Reach n s) where
  -- What an exit code tells of `run`.
  abbrev CodeOf : ℕ → Type 0
  CodeOf code = (code ≡ 1) ⊎ ((code ≡ 0) × (s.waiting ≡ returned none) × (s.done ≡ true))

  after_serving-CodeOf :
      (w : Waiting) (o : Option ServeError) (b : Bool) (code : ℕ) (pool : Bool)
      → s.waiting ≡ w
      → IsReported s.done o w
      → after_serving w (b && is_open w) ≡ left_with code pool
      → (pool ≡ false) × CodeOf code
  after_serving-CodeOf selecting o b code pool e p h = ground arith
  after_serving-CodeOf shutting_down o b code pool e p h = ground arith
  after_serving-CodeOf (returned none) o b code pool e p h =
      (ground arith, inr (ground arith, e, p))
  after_serving-CodeOf (returned (some (server_error x))) o b code pool e p h =
      (ground arith, inl (ground arith))
  after_serving-CodeOf (returned (some shutdown_error)) o b code pool e p h =
      (ground arith, inl (ground arith))

  after_connecting-EndOf :
      (cfg : Config) (r : Result OpenError (Unit {0}) × Resources) (code : ℕ) (pool : Bool)
      → Ends (λ _ o. IsOpened services o) (λ _ o. o ≡ all_closed) r
      → after_connecting s r ≡ left_with code pool
      → EndOf services s (some cfg) code pool
  after_connecting-EndOf cfg (err e, r) code pool shut h =
      let closed : r.pool_open ≡ false = ap (λ k. k.pool_open) shut in
      (ground arith, inl (ground arith))
  after_connecting-EndOf cfg (ok _, r) code pool opened h =
      let sound = Reach-IsSound reach in
      let (shut, code_of) =
        after_serving-CodeOf s.waiting (sent_error s.serving) r.pool_open code pool refl
          sound.reported
          (ap (λ b. after_serving s.waiting (r.pool_open && b)) (sym sound.store) ∙ h) in
      (
        shut,
        elim code_of [
          | inl failed ↦ inl failed
          | inr (zero_code, quiet, done) ↦
              inr
                (zero_code, (cfg, refl), subst (IsOpened services) opened.pool opened, quiet, done)
        ],
      )

  after_load_api-EndOf :
      (l : Result ConfigError Config) (code : ℕ) (pool : Bool)
      → after_load_api services s l ≡ left_with code pool
      → EndOf services s (loaded_of l) code pool
  after_load_api-EndOf (err e) code pool h = (ground arith, inl (ground arith))
  after_load_api-EndOf (ok cfg) code pool h =
      after_connecting-EndOf cfg (new services all_closed) code pool (new-IsOpened services) h

  -- In every interleaving, the API's command leaves the pool closed when it exits, with the code 0 or
  -- 1; with 0 only where its configuration was loaded, the store was opened and migrated, the context
  -- was done, and `run` returned without an error.
  pub api_main-EndOf :
      (getenv : Text → Text) (parse_duration : Text → Option ℤ) (code : ℕ) (pool : Bool)
      → api_main getenv parse_duration services s ≡ left_with code pool
      → EndOf services s (loaded_of (load_api getenv parse_duration)) code pool
  unfolding api_main
  api_main-EndOf getenv parse_duration code pool h =
      after_load_api-EndOf (load_api getenv parse_duration) code pool h
