-- ===== src/Commands/IndexerEnds.antt =====
-- How `main` of cmd/indexer/main.go ends.
use cca_go_indexer.Base.{ℕ, ◌≡◌, refl, ap, Bool, true, false, Option, [], ◌∷◌, arith}
use cca_go_indexer.AuctionCreated.{Formats, auction_created_handler}
use mathlib.Core.Path.{subst}
use cca_go_indexer.Base.Effect.{Result, ok, err, Ends}
use cca_go_indexer.BigInt.{ℤ}
use cca_go_indexer.Commands.IndexerMain.{
  Process, exited, closed, leave, after_run, indexer_config, after_new, after_load, main,
}
use cca_go_indexer.Config.{Config, ConfigError, load_indexer}
use cca_go_indexer.Indexer.{Exit, continue_with, return_error, panic, run}
use cca_go_indexer.Registry.{HandlerMap, new_registry}
use cca_go_indexer.Store.Opening.{
  Services, Resources, OpenError, all_closed, new, IsOpened, new-IsOpened,
}
use cca_go_indexer.Text.{Text}
use cca_go_indexer.Types.{Codec}
use cca_go_indexer.World.Calls.{Env, World}
use cca_go_indexer.World.Errors.{
  Error, database_error, rpc_error, codec_error, canceled, no_topics, few_topics, reorg_too_deep,
  wrapped,
}

leave_graceful : (e : Error) (p : Process) → leave e ≡ exited 0 p → (e ≡ canceled) × (p ≡ closed)
leave_graceful database_error p h = ground arith
leave_graceful rpc_error p h = ground arith
leave_graceful codec_error p h = ground arith
leave_graceful canceled p h = (refl, ground arith)
leave_graceful no_topics p h = ground arith
leave_graceful (few_topics n) p h = ground arith
leave_graceful reorg_too_deep p h = ground arith
leave_graceful (wrapped o e) p h = ground arith

after_run_graceful :
    (x : Exit × World) (p : Process)
    → after_run x ≡ exited 0 p
    → (x.0 ≡ return_error canceled) × (p ≡ closed)
after_run_graceful (continue_with l, w) p h = ground arith
after_run_graceful (return_error e, w) p h =
    let (same, shut) = leave_graceful e p h in (ap return_error same, shut)
after_run_graceful (panic, w) p h = ground arith

module _ ⦃c : Codec⦄ (f : Formats) (env : Env) where
  -- The registry of the one handler.
  abbrev pub the_registry : HandlerMap
  the_registry = (f.event_id, auction_created_handler f env) ∷ []

  -- What a graceful end of `main` tells of the services and of `Run`.
  pub record IsGraceful (cfg : Config) (services : Services) (dials : Bool) (n : ℕ) (w : World)
      (p : Process) : Type 0 where
    pub opened : IsOpened services (record all_closed { pool_open = true })
    pub dialed : dials ≡ true
    pub stopped : (run env (indexer_config cfg) the_registry n w).0 ≡ return_error canceled
    pub tidy : p ≡ closed

  after_new-IsGraceful :
      (cfg : Config) (services : Services) (dials : Bool) (n : ℕ) (w : World) (p : Process)
      (r : Result OpenError (Unit {0}) × Resources)
      → Ends (λ _ o. IsOpened services o) (λ _ o. o ≡ all_closed) r
      → after_new f env cfg dials n w r ≡ exited 0 p
      → IsGraceful cfg services dials n w p
  unfolding new_registry auction_created_handler
  after_new-IsGraceful cfg services true n w p (ok _, r) opened h =
      let (same, shut) = after_run_graceful (run env (indexer_config cfg) the_registry n w) p h in
      record {
        opened = subst (IsOpened services) opened.pool opened;
        dialed = refl;
        stopped = same;
        tidy = shut;
      }
  after_new-IsGraceful cfg services false n w p (ok _, r) opened h = ground arith
  after_new-IsGraceful cfg services dials n w p (err e, r) opened h = ground arith

  after_load-IsGraceful :
      (services : Services) (dials : Bool) (n : ℕ) (w : World) (p : Process)
      (l : Result ConfigError Config)
      → after_load f env services dials n w l ≡ exited 0 p
      → (cfg : Config) × (l ≡ ok cfg) × IsGraceful cfg services dials n w p
  after_load-IsGraceful services dials n w p (err e) h = ground arith
  after_load-IsGraceful services dials n w p (ok cfg) h = (
    cfg,
    refl,
    after_new-IsGraceful cfg services dials n w p (new services all_closed) (new-IsOpened services)
        h,
  )

  -- The indexer exits with the code 0 only where its configuration was loaded, the store was opened and
  -- migrated, the node was dialed, and Run returned the context's cancellation unwrapped; then the store
  -- and the client are closed.
  pub main-IsGraceful :
      (getenv : Text → Text) (parse_duration : Text → Option ℤ) (services : Services) (dials : Bool)
      (n : ℕ) (w : World) (p : Process)
      → main f env getenv parse_duration services dials n w ≡ exited 0 p
      → (cfg : Config) × (load_indexer getenv parse_duration ≡ ok cfg)
        × IsGraceful cfg services dials n w p
  unfolding main
  main-IsGraceful getenv parse_duration services dials n w p h =
      after_load-IsGraceful services dials n w p (load_indexer getenv parse_duration) h
