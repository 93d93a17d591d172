-- ===== src/Indexer/CaughtUp.antt =====
-- What the tables hold when `ChainIndexer.Run` has caught up, and that batches and failures leave no
-- trace in them (internal/indexer/indexer.go).
use cca_go_indexer.Base.{ℕ, zero, ◌+◌, ◌-◌, ◌<◌, ◌≤◌, ◌≡◌, refl, ap, ◌∙◌, List, arith}
use cca_go_indexer.AuctionCreated.{Formats}
use cca_go_indexer.Indexer.{
  IndexerConfig, Loop, Exit, continue_with, return_error, panic, run_rounds,
}
use cca_go_indexer.Indexer.CatchUp.{AtSafeHead, IsReady, run_rounds-AtSafeHead}
use cca_go_indexer.Indexer.Commits.{HandlesLogs}
use cca_go_indexer.Indexer.Exactly.{ExactAt, run_rounds-ExactAt}
use cca_go_indexer.Indexer.Index.{Chain, tables, index_blocks}
use cca_go_indexer.Indexer.Still.{IsStill}
use cca_go_indexer.Indexer.Trusted.{IsTrusted}
use cca_go_indexer.Registry.{HandlerMap}
use cca_go_indexer.Types.{Codec, Log}
use cca_go_indexer.World.Calls.{Env, World, FilterQuery}
use cca_go_indexer.World.Database.{Database}
use cca_go_indexer.World.Healthy.{IsHealthy}

module _ ⦃c : Codec⦄ (f : Formats) (env : Env) (cfg : IndexerConfig) (registry : HandlerMap)
    (ch : Chain) (still : IsStill f env cfg registry ch) (trusted : IsTrusted env cfg registry)
    (head : ℕ) (logs : FilterQuery → List Log) (healthy : IsHealthy env head ch.header logs) where
  -- The loop is at the safe head, and the tables are those of before and the index of the blocks from
  -- `start` up to it.
  abbrev pub HasIndexed : ℕ → Database → Exit × World → Type 0
  HasIndexed start before (continue_with k, w) =
      (k.cursor ≡ head - cfg.confirmations)
      × (tables w.db
          ≡ tables (
              index_blocks f cfg.chain_id ch (start + 1) ((head - cfg.confirmations) - start)
                before))
  HasIndexed start before (_, w) = ⊥

  AtSafeHead-HasIndexed :
      (n : ℕ) (before : Database) (x : Exit × World)
      → AtSafeHead env cfg registry trusted n head ch.header logs healthy x
      → ExactAt f env cfg registry ch still trusted n before x
      → HasIndexed n before x
  AtSafeHead-HasIndexed n before (continue_with k, w) (at_head, _) p = (
    at_head,
    p.index.1 ∙ ap (λ i. tables (index_blocks f cfg.chain_id ch (n + 1) (i - n) before)) at_head,
  )
  AtSafeHead-HasIndexed n before (return_error e, w) never p = absurd never
  AtSafeHead-HasIndexed n before (panic, w) never p = absurd never

  -- Where every call succeeds, the chain stands still, the handlers take its logs and a batch has at
  -- least one block, as many rounds as there are blocks up to the safe head, from a block at which a
  -- round may begin, add to the tables the index of these blocks and nothing else.
  pub run_rounds-HasIndexed :
      HandlesLogs env cfg registry head ch.header logs healthy
      → 0 < cfg.block_batch_size
      → cfg.confirmations ≤ head
      → (n : ℕ) (l : Loop) (w : World)
      → IsReady env cfg registry trusted l.cursor head ch.header logs healthy l.cursor w.db
      → head - cfg.confirmations ≤ l.cursor + n
      → HasIndexed l.cursor w.db (run_rounds env cfg registry n l w)
  run_rounds-HasIndexed handles pos confirmed n l w ready h =
      AtSafeHead-HasIndexed l.cursor w.db (run_rounds env cfg registry n l w)
        (run_rounds-AtSafeHead env cfg registry trusted l.cursor head ch.header logs healthy handles
          pos confirmed n l w ready h)
        (run_rounds-ExactAt f env cfg registry ch still trusted l.cursor w.db n l w (record {
          index = (omega arith, nothing_new);
          consistent = ready.consistent;
          current = ready.current;
        }))
    where
      nothing_new :
          tables w.db
          ≡ tables (index_blocks f cfg.chain_id ch (l.cursor + 1) (l.cursor - l.cursor) w.db)
      nothing_new =
          let none_new : zero ≡ l.cursor - l.cursor = omega arith in
          let start_eq : tables w.db
              ≡ tables (index_blocks f cfg.chain_id ch (l.cursor + 1) zero w.db) =
            unfold index_blocks in refl in
          start_eq
          ∙ ap (λ i. tables (index_blocks f cfg.chain_id ch (l.cursor + 1) i w.db)) none_new

-- The loop goes on from a block.
abbrev pub GoesOnAt : ℕ → Exit × World → Type 0
GoesOnAt n (continue_with k, w) = k.cursor ≡ n
GoesOnAt n (return_error e, w) = ⊥
GoesOnAt n (panic, w) = ⊥

module _ ⦃c : Codec⦄ (f : Formats) (env : Env) (cfg : IndexerConfig) (registry : HandlerMap)
    (ch : Chain) (still : IsStill f env cfg registry ch) (trusted : IsTrusted env cfg registry)
    (base : ℕ) (before : Database) (n : ℕ) where
  pub ExactAt-tables :
      (x : Exit × World)
      → ExactAt f env cfg registry ch still trusted base before x
      → GoesOnAt n x
      → tables x.1.db ≡ tables (index_blocks f cfg.chain_id ch (base + 1) (n - base) before)
  ExactAt-tables (continue_with k, w) p here =
      p.index.1
      ∙ ap (λ i. tables (index_blocks f cfg.chain_id ch (base + 1) (i - base) before)) here
  ExactAt-tables (return_error e, w) p here = absurd here
  ExactAt-tables (panic, w) p here = absurd here
