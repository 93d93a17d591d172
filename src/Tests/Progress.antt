-- ===== src/Tests/Progress.antt =====
-- What the theorems on progress say in the small world: twelve blocks, of which two are unconfirmed,
-- in batches of four.
use cca_go_indexer.Base.{refl, ◌&&◌, inl, inr, arith, leb, Bool-cases}
use cca_go_indexer.AuctionCreated.{handle, auction_created_handler}
use cca_go_indexer.Indexer.EmptyBatch.{Panics, round-Panics}
use cca_go_indexer.Indexer.{IndexerConfig, Loop, round}
use cca_go_indexer.Indexer.CatchUp.{IsReady}
use cca_go_indexer.Indexer.Commits.{HandlesLogs}
use cca_go_indexer.Registry.{handle_logs}
use cca_go_indexer.Store.Blocks.{block_hash}
use cca_go_indexer.Store.Cursors.{stored_cursor}
use cca_go_indexer.World.Calls.{exec}
use cca_go_indexer.World.Database.{empty_database}
use cca_go_indexer.Tests.Setup.{
  test_codec, healthy, config, registry, healthy-IsTrusted, healthy-IsHealthy, header, logs, start,
}

pub registry-HandlesLogs : HandlesLogs healthy config registry 12 header logs healthy-IsHealthy
unfolding handle_logs auction_created_handler handle exec healthy
registry-HandlesLogs q w = elim (Bool-cases (leb q.from_block 3 && leb 3 q.to_block)) [
  | inl e ↦ rw e tt
  | inr e ↦ rw e tt
]

abbrev pub first : Loop
first = record { cursor = 1; consecutive_errors = 2 }

pub first-IsReady :
    IsReady healthy config registry healthy-IsTrusted 1 12 header logs healthy-IsHealthy 1
      empty_database
unfolding stored_cursor block_hash
first-IsReady = record {
  above = omega arith;
  below = omega arith;
  consistent = record {
    rows = record { events = tt; auctions = tt; blocks = tt };
    persisted = inr (refl, omega arith);
    hashes = λ n f h. absurd (omega arith);
  };
  current = inl refl;
}

abbrev empty_batches : IndexerConfig
empty_batches = record config { block_batch_size = 0 }

round-Panics_example : Panics (round healthy empty_batches registry first start)
unfolding block_hash
round-Panics_example =
    round-Panics healthy empty_batches registry 12 header logs healthy-IsHealthy first start refl
      (omega arith) (omega arith) (omega arith) (inl refl)
