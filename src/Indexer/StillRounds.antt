-- ===== src/Indexer/StillRounds.antt =====
-- What a round of `ChainIndexer.Run` adds to the tables while the chain stands still
-- (internal/indexer/indexer.go), whatever fails.
use cca_go_indexer.Base.{
  ℕ, ◌+◌, ◌-◌, ◌<◌, ◌≤◌, ◌≡◌, refl, ap, ◌∙◌, sym, inl, inr, Bool, true, false, ◌⊎◌, arith, u64, min,
}
use mathlib.Core.Path.{subst}
use cca_go_indexer.AuctionCreated.{Formats}
use cca_go_indexer.Base.Effect.{Ends, Ends-weaken}
use cca_go_indexer.Indexer.{IndexerConfig, Loop, store_batch, process_batch, round}
use cca_go_indexer.Indexer.BatchCommits.{commit_batch, process_batch-Commits}
use cca_go_indexer.Indexer.Index.{Chain, tables, index_blocks, logs_from, headers_from}
use cca_go_indexer.Indexer.Detection.{Chooses, round-Chooses}
use cca_go_indexer.Indexer.Still.{IsStill, store_batch-index_blocks}
use cca_go_indexer.Indexer.Trusted.{IsTrusted, bigint_size}
use cca_go_indexer.Registry.{HandlerMap}
use cca_go_indexer.Reorg.Detect.{Detected}
use cca_go_indexer.Store.Blocks.{block_hash}
use cca_go_indexer.Store.Cursors.{stored_cursor}
use cca_go_indexer.Types.{Codec, Hash, zero_hash}
use cca_go_indexer.World.Calls.{Env, World, Action, tick}
use cca_go_indexer.World.Database.{Database}
use cca_go_indexer.World.Errors.{executing_batch}
use cca_go_indexer.World.Tx.{with_tx, with_tx_atomic}
use cca_go_indexer.Indexer.Unchanged.{Unchanged, attempt_next}

module _ ⦃c : Codec⦄ (f : Formats) (env : Env) (cfg : IndexerConfig) (registry : HandlerMap)
    (ch : Chain) (still : IsStill f env cfg registry ch) where
  -- The stored hash of the block is the chain's, or there is none.
  abbrev pub IsCurrent : ℕ → Database → Type 0
  IsCurrent n db =
      (block_hash cfg.chain_id n db ≡ zero_hash)
      ⊎ (block_hash cfg.chain_id n db ≡ (ch.header n).hash)

  -- With such a block no reorganisation is detected.
  pub not-Detected :
      (n t : ℕ) (db : Database) (b : Bool)
      → IsCurrent n db
      → Detected env cfg.chain_id n t db b
      → b ≡ false
  not-Detected n t db false current d = refl
  not-Detected n t db true (inl none_stored) (_, stored, _) = absurd (stored none_stored)
  not-Detected n t db true (inr same) (_, _, (h, answered, other)) =
      absurd (other (same ∙ ap (λ k. k.hash) (sym (still.headers t n h answered))))

module _ ⦃c : Codec⦄ (f : Formats) (env : Env) (cfg : IndexerConfig) (registry : HandlerMap)
    (ch : Chain) (still : IsStill f env cfg registry ch)
    (trusted : IsTrusted env cfg registry) where
  -- The round has indexed the blocks from the loop's cursor to the next one's, which is stored.
  abbrev pub Extended : Loop → Database → Loop → World → Type 0
  Extended l db k w =
      (l.cursor ≤ k.cursor)
      × (tables w.db
          ≡ tables (index_blocks f cfg.chain_id ch (l.cursor + 1) (k.cursor - l.cursor) db))
      × ((stored_cursor cfg.chain_id w.db).0 ≡ k.cursor)

  commit-Extended :
      (l : Loop) (to : ℕ) (last : Hash) (db : Database) (w : World)
      → l.cursor ≤ to
      → w.db ≡ db
      → Ends (Extended l db) (Unchanged l db) (commit_batch f env cfg registry ch still l to last w)
  commit-Extended l to last db w le same =
      attempt_next env l db (Unchanged l db) (λ _ _ u. u) (λ _ w'. IsAfter db w'.db) _
        executing_batch (with_tx env batch) _ w
        (Ends-weaken _ _ _ _ (with_tx env batch w)
          (λ _ _ (e, saved). (e ∙ ap (λ d. tables (after d)) same, saved)) (λ _ _ e. e ∙ same)
          (with_tx_atomic env (λ _. IsAfter w.db) batch w trusted.commits
            (store_batch-index_blocks f env cfg registry ch still (l.cursor + 1) to (to - l.cursor)
              last (tick w))))
        (λ _ w' (e, saved). (le, e, saved))
    where
      after : Database → Database
      after = index_blocks f cfg.chain_id ch (l.cursor + 1) (to - l.cursor)

      IsAfter : Database → Database → Type 0
      IsAfter d d' = (tables d' ≡ tables (after d)) × ((stored_cursor cfg.chain_id d').0 ≡ to)

      batch : Action (Unit {0})
      batch =
          store_batch env cfg registry (l.cursor + 1) to
            (logs_from ch (l.cursor + 1) (to - l.cursor))
            (headers_from ch (l.cursor + 1) (to - l.cursor)) last

  -- A batch adds the index of its blocks, or nothing.
  pub process_batch-Extended :
      (l : Loop) (to : ℕ) (w : World)
      → l.cursor ≤ to
      → to < bigint_size
      → Ends
          (Extended l w.db)
          (Unchanged l w.db)
          (process_batch env cfg registry l (l.cursor + 1) to w)
  process_batch-Extended l to w le small =
      process_batch-Commits f env cfg registry ch still (Extended l w.db) (Unchanged l w.db) l to w
        (λ _ _ u. u) le small (λ last w' same. commit-Extended l to last w.db w' le same)

  choose-Extended :
      (l : Loop) (db : Database)
      → IsCurrent f env cfg registry ch still l.cursor db
      → Chooses env cfg registry trusted.heads (Extended l db) (Unchanged l db) l db
  choose-Extended l db current safe t true w h k same d =
      let impossible = not-Detected f env cfg registry ch still l.cursor t db true current d in cc
  choose-Extended l db current safe t false w h k same d =
      let next_block : u64 (l.cursor + 1) ≡ l.cursor + 1 = omega arith in
      rw next_block (
        subst
          (λ x. Ends (Extended l x) (Unchanged l x) (
            process_batch env cfg registry l (l.cursor + 1)
              (min (u64 (l.cursor + cfg.block_batch_size)) safe) w))
          same
          (process_batch-Extended l (min (u64 (l.cursor + cfg.block_batch_size)) safe) w
            (ground (arith, trusted.batch_size)) (ground arith)))

  -- From a block of which the store has the chain's hash, or none, a round extends the tables by the
  -- index of the blocks from the loop's cursor to the next one's, or it leaves cursor and database
  -- alone, whatever fails.
  pub round-Extended :
      (l : Loop) (w : World)
      → IsCurrent f env cfg registry ch still l.cursor w.db
      → Ends (Extended l w.db) (Unchanged l w.db) (round env cfg registry l w)
  round-Extended l w current =
      round-Chooses env cfg registry trusted.heads (Extended l w.db) (Unchanged l w.db) l w
        (λ _ _ u. u) (choose-Extended l w.db current)
