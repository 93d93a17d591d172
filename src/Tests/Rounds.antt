-- ===== src/Tests/Rounds.antt =====
-- What the theorems on the indexer's loop and on reorganisations say in the small world.
use cca_go_indexer.Base.{ℕ, ◌≡◌, ◌∙◌, refl, inl, inr, [], ◌∷◌, arith}
use cca_go_indexer.Base.Effect.{ok, Ends}
use cca_go_indexer.Indexer.{Loop, run, run_rounds, store_batch}
use cca_go_indexer.Indexer.Batch.{IsStored, store_batch-IsStored}
use cca_go_indexer.Indexer.Survival.{Survives, run_rounds-Survives}
use cca_go_indexer.Indexer.Invariant.{IsConsistent, IsResumable, Keeps}
use cca_go_indexer.Indexer.Rounds.{run-Keeps}
use cca_go_indexer.Reorg.{handle_reorg}
use cca_go_indexer.Reorg.Finds.{IsLastShared, handle_reorg-ok}
use cca_go_indexer.Reorg.Rollback.{IsRecovered, handle_reorg-IsRecovered, rolled_back}
use cca_go_indexer.Reorg.Unshared.{IsUnshared, IsRestart, handle_reorg-IsRestart}
use cca_go_indexer.Store.Inserts.{block_hash-insert_block_ne}
use cca_go_indexer.Store.Blocks.{block_hash, insert_block}
use cca_go_indexer.Store.Cursors.{stored_cursor, upsert_cursor}
use cca_go_indexer.World.Calls.{World}
use cca_go_indexer.World.Database.{Database, empty_database}
use cca_go_indexer.Tests.Setup.{
  test_codec, created, healthy, config, registry, healthy-IsTrusted, healthy-IsHealthy, header,
  logs, start,
}

empty-IsResumable : IsResumable healthy 1 1 empty_database
unfolding stored_cursor
empty-IsResumable = record {
  rows = record { events = tt; auctions = tt; blocks = tt };
  persisted = inl refl;
  hashes = λ n f h. absurd (omega arith);
}

run-Keeps_example :
    Keeps healthy 1 1
      (run healthy config registry 3 start).0
      (run healthy config registry 3 start).1
run-Keeps_example =
    run-Keeps healthy config registry healthy-IsTrusted 1 3 start (omega arith) empty-IsResumable

abbrev first : Loop
first = record { cursor = 1; consecutive_errors = 0 }

first-IsConsistent : IsConsistent healthy 1 1 1 empty_database
unfolding stored_cursor
first-IsConsistent = record {
  rows = record { events = tt; auctions = tt; blocks = tt };
  persisted = inr (refl, omega arith);
  hashes = λ n f h. absurd (omega arith);
}

run_rounds-Survives_example : Survives 4 (run_rounds healthy config registry 4 first start).0
run_rounds-Survives_example =
    run_rounds-Survives healthy config registry 4 first start (omega arith)

store_batch-IsStored_example :
    Ends
      (λ _ w.
        IsStored healthy config registry 2 4
          (header 2 ∷ header 3 ∷ header 4 ∷ [])
          104
          empty_database
          w.db)
      (λ _ _. Unit {0})
      (store_batch healthy config registry 2 4
        (created ∷ [])
        (header 2 ∷ header 3 ∷ header 4 ∷ [])
        104
        start)
store_batch-IsStored_example =
    store_batch-IsStored healthy config registry 1 4 (created ∷ [])
      (header 2 ∷ header 3 ∷ header 4 ∷ []) 104 start healthy-IsTrusted.handlers (omega arith, tt)
      (record { events = tt; auctions = tt; blocks = tt }) (omega arith) (omega arith)

-- Blocks 3 to 5 are indexed, and the chain has replaced 4 and 5.
unfoldable forked : Database
forked =
    upsert_cursor 1 5 205 (
      insert_block 1 5 205 204 (insert_block 1 4 204 103 (insert_block 1 3 103 102 empty_database)))

abbrev at_fork : World
at_fork = record { db = forked; now = 0 }

handle_reorg-IsRecovered_example :
    Ends
      (λ a w. IsRecovered 1 healthy 5 a forked w.db)
      (λ _ w. w.db ≡ forked)
      (handle_reorg healthy 1 5 at_fork)
handle_reorg-IsRecovered_example =
    handle_reorg-IsRecovered 1 healthy 5 at_fork healthy-IsTrusted.commits

forked-IsLastShared : IsLastShared healthy 1 12 header logs healthy-IsHealthy 5 3 forked
unfolding forked block_hash insert_block upsert_cursor test_codec
forked-IsLastShared = record {
  shared = refl;
  above = λ n h k e. let at_four : n ≡ 4 = omega arith in absurd (omega (arith, rw at_four at e));
}

handle_reorg-ok_example :
    (w : World) × (handle_reorg healthy 1 5 at_fork ≡ (ok 3, w)) × (w.db ≡ rolled_back 1 3 forked)
handle_reorg-ok_example =
    handle_reorg-ok healthy 1 12 header logs healthy-IsHealthy 5 3 at_fork (omega arith)
      (omega arith) forked-IsLastShared

-- One block is stored, which the chain has not.
abbrev alone : Database
alone = insert_block 1 5 205 204 empty_database

nothing_stored : (n : ℕ) → block_hash 1 n empty_database ≡ 0
unfolding block_hash
nothing_stored n = refl

alone-IsUnshared : IsUnshared healthy 1 12 header logs healthy-IsHealthy 128 5 alone
alone-IsUnshared n h k e =
    let below : block_hash 1 n alone ≡ 0 =
      block_hash-insert_block_ne 1 5 205 204 empty_database n (omega arith) ∙ nothing_stored n in
    absurd (omega (arith, below, e))

handle_reorg-IsRestart_example :
    IsRestart healthy 1 12 header logs healthy-IsHealthy 5 alone
      (handle_reorg healthy 1 5 (record { db = alone; now = 0 }))
handle_reorg-IsRestart_example =
    handle_reorg-IsRestart healthy 1 12 header logs healthy-IsHealthy 5
      (record { db = alone; now = 0 }) alone-IsUnshared
