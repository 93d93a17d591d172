-- ===== src/Indexer/Fresh.antt =====
-- `ChainIndexer.Run` from an empty database on (internal/indexer/indexer.go).
use cca_go_indexer.Base.{ℕ, ◌+◌, ◌-◌, ◌<◌, ◌≤◌, ◌≡◌, refl, inl, inr, List, arith}
use mathlib.Core.Path.{subst}
use cca_go_indexer.AuctionCreated.{Formats}
use cca_go_indexer.Indexer.{IndexerConfig, initial_cursor, run_rounds, run}
use cca_go_indexer.Indexer.CatchUp.{IsReady}
use cca_go_indexer.Indexer.CaughtUp.{HasIndexed, run_rounds-HasIndexed}
use cca_go_indexer.Indexer.Commits.{HandlesLogs}
use cca_go_indexer.Indexer.Index.{Chain}
use cca_go_indexer.Indexer.Still.{IsStill}
use cca_go_indexer.Indexer.Trusted.{IsTrusted}
use cca_go_indexer.Registry.{HandlerMap}
use cca_go_indexer.Store.Blocks.{block_hash}
use cca_go_indexer.Store.Cursors.{stored_cursor}
use cca_go_indexer.Types.{Codec, Log}
use cca_go_indexer.World.Calls.{Env, FilterQuery, query, tick}
use cca_go_indexer.World.Database.{empty_database}
use cca_go_indexer.World.Healthy.{IsHealthy}

module _ ⦃c : Codec⦄ (f : Formats) (env : Env) (cfg : IndexerConfig) (registry : HandlerMap)
    (ch : Chain) (still : IsStill f env cfg registry ch) (trusted : IsTrusted env cfg registry)
    (head : ℕ) (logs : FilterQuery → List Log) (healthy : IsHealthy env head ch.header logs) where
  -- The block before the first one to be indexed.
  abbrev pub base : ℕ
  base = cfg.start_block - 1

  fresh-IsReady :
      base ≤ head - cfg.confirmations
      → IsReady env cfg registry trusted base head ch.header logs healthy base empty_database
  unfolding stored_cursor block_hash
  fresh-IsReady h = record {
    above = omega arith;
    below = h;
    consistent = record {
      rows = record { events = tt; auctions = tt; blocks = tt };
      persisted = inr (refl, omega arith);
      hashes = λ n low high. absurd (omega arith);
    };
    current = inl refl;
  }

  first_cursor : base ≡ initial_cursor cfg.start_block 0
  first_cursor = ground arith

  -- Where every call succeeds, the chain stands still, the handlers take its logs and a batch has at
  -- least one block, Run on an empty database, in as many rounds as there are blocks to index, brings
  -- the loop to the safe head and leaves in the tables the index of the blocks from the start block, or
  -- from block 1, up to the safe head, and nothing else.
  pub run-HasIndexed :
      HandlesLogs env cfg registry head ch.header logs healthy
      → 0 < cfg.block_batch_size
      → cfg.confirmations ≤ head
      → base ≤ head - cfg.confirmations
      → (n t : ℕ) → head - cfg.confirmations ≤ base + n
      → HasIndexed f env cfg registry ch still trusted head logs healthy base empty_database
          (run env cfg registry n (record { db = empty_database; now = t }))
  unfolding run query stored_cursor
  run-HasIndexed handles pos confirmed low n t enough = rw (healthy.statements t) (
      subst
        (λ k. HasIndexed f env cfg registry ch still trusted head logs healthy base empty_database (
          run_rounds env cfg registry n (record { cursor = k; consecutive_errors = 0 })
            (tick (record { db = empty_database; now = t }))))
        first_cursor
        (run_rounds-HasIndexed f env cfg registry ch still trusted head logs healthy handles pos
          confirmed n (record { cursor = base; consecutive_errors = 0 })
          (tick (record { db = empty_database; now = t })) (fresh-IsReady low) enough))
