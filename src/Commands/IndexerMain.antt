-- ===== src/Commands/IndexerMain.antt =====
-- `main` of cmd/indexer/main.go: the configuration, the store, the node and the loop, and the exit.
use cca_go_indexer.Base.{ℕ, ◌-◌, Bool, true, false, Option, none, some, [], ◌∷◌, if◌then◌else◌}
use cca_go_indexer.AuctionCreated.{Formats, auction_created_handler}
use cca_go_indexer.Base.Effect.{Result, ok, err}
use cca_go_indexer.BigInt.{ℤ, pos, negsuc}
use cca_go_indexer.Config.{Config, ConfigError, load_indexer}
use cca_go_indexer.Indexer.{IndexerConfig, Exit, continue_with, return_error, panic, run}
use cca_go_indexer.Registry.{HandlerMap, new_registry}
use cca_go_indexer.Store.Opening.{Services, Resources, OpenError, all_closed, new}
use cca_go_indexer.Text.{Text}
use cca_go_indexer.Types.{Codec}
use cca_go_indexer.World.Calls.{Env, World}
use cca_go_indexer.World.Errors.{Error, canceled}

-- What is open: the store's pool and the client.
pub record Process : Type 0 where
  pub pool_open : Bool
  pub client_open : Bool

-- `main` has exited with a code, was left by a panic, or is still in `Run`. What is open at the end is
-- what the deferred calls have not closed; `os.Exit` runs none of them.
pub data Ending : Type 0 where
  exited : ℕ → Process → Ending
  panicked : Process → Ending
  running : Ending

abbrev pub closed : Process
closed = record { pool_open = false; client_open = false }

-- An `int64` as the number of its 64 bits: the chain identifier is only compared.
abbrev pub word_of : ℤ → ℕ
word_of (pos n) = n
word_of (negsuc n) = 18446744073709551615 - n

-- After an error of `Run`, which is `context.Canceled` itself or any other.
abbrev pub leave : Error → Ending
leave canceled = exited 0 closed
leave e = exited 1 (record { pool_open = true; client_open = true })

-- The end of `main`, after `Run`.
abbrev pub after_run : Exit × World → Ending
after_run (continue_with l, w) = running
after_run (return_error e, w) = leave e
after_run (panic, w) = panicked closed

-- `idxConfig`
abbrev pub indexer_config : ⦃c : Codec⦄ → Config → IndexerConfig
indexer_config ⦃c⦄ cfg = record {
  chain_id = word_of cfg.chain_id;
  start_block = cfg.start_block;
  block_batch_size = cfg.block_batch_size;
  confirmations = cfg.confirmations;
  addresses = c.hex_to_address cfg.factory_addr ∷ [];
}

module _ ⦃c : Codec⦄ (f : Formats) (env : Env) where
  abbrev pub start_indexer : Config → Option HandlerMap → ℕ → World → Ending
  start_indexer cfg none n w = panicked closed
  start_indexer cfg (some registry) n w = after_run (run env (indexer_config cfg) registry n w)

  -- From the store on; `dials` tells whether `eth.NewClient` succeeds.
  abbrev pub after_new :
      Config → Bool → ℕ → World → Result OpenError (Unit {0}) × Resources → Ending
  after_new cfg dials n w (err e, r) = exited 1 (record closed { pool_open = r.pool_open })
  after_new cfg dials n w (ok _, r) =
      if dials
      then start_indexer cfg (new_registry (auction_created_handler f env ∷ [])) n w
      else exited 1 (record closed { pool_open = r.pool_open })

  abbrev pub after_load : Services → Bool → ℕ → World → Result ConfigError Config → Ending
  after_load services dials n w (err e) = exited 1 closed
  after_load services dials n w (ok cfg) = after_new cfg dials n w (new services all_closed)

  -- `main`, with so many rounds of the loop.
  unfoldable pub main : (Text → Text) → (Text → Option ℤ) → Services → Bool → ℕ → World → Ending
  main getenv parse_duration services dials n w =
      after_load services dials n w (load_indexer getenv parse_duration)
