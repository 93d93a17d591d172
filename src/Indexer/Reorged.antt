-- ===== src/Indexer/Reorged.antt =====
-- That `handleReorg` takes the tables to the index of the new chain (internal/indexer/reorg.go).
use cca_go_indexer.Base.{
  ℕ, ◌+◌, ◌-◌, ◌<◌, ◌≤◌, ◌≡◌, ap, ◌∙◌, sym, ◌⊎◌, inl, inr, arith, Bool-cases, ltb,
}
use cca_go_indexer.AuctionCreated.{Formats}
use cca_go_indexer.Base.Effect.{Ends, Ends-weaken}
use cca_go_indexer.Indexer.{IndexerConfig}
use cca_go_indexer.Indexer.Forks.{Shares, rolled_back-index_blocks}
use cca_go_indexer.Indexer.Cut.{IsNumbered}
use cca_go_indexer.Indexer.Index.{Chain, tables, index_blocks}
use cca_go_indexer.Indexer.Still.{IsStill}
use cca_go_indexer.Registry.{HandlerMap}
use cca_go_indexer.Reorg.{handle_reorg}
use cca_go_indexer.Reorg.Rollback.{IsRecovered, handle_reorg-IsRecovered}
use cca_go_indexer.Store.Blocks.{block_hash}
use cca_go_indexer.Store.Rows.{RowsUpTo}
use cca_go_indexer.Types.{Codec}
use cca_go_indexer.World.Calls.{Env, World}
use cca_go_indexer.World.Database.{Database}
use cca_go_indexer.World.Tx.{NoLostCommit}

-- A block's hash fixes it and the blocks below it, since each header holds the hash of its parent.
abbrev pub AreChained : Chain → Chain → Type 0
AreChained ch ch' =
    (n m : ℕ)
    → (ch.header n).hash ≡ (ch'.header n).hash
    → m ≤ n
    → (ch.header m ≡ ch'.header m) × (ch.block_logs m ≡ ch'.block_logs m)

module _ ⦃c : Codec⦄ (f : Formats) (env : Env) (cfg : IndexerConfig) (registry : HandlerMap)
    (ch ch' : Chain) (still : IsStill f env cfg registry ch') (chained : AreChained ch ch')
    (base : ℕ) (before : Database) where
  -- What was indexed of a chain: its blocks above the base up to `n`, with their hashes.
  pub record IsIndexed (n : ℕ) (db : Database) : Type 0 where
    pub above : base ≤ n
    pub index : tables db ≡ tables (index_blocks f cfg.chain_id ch (base + 1) (n - base) before)
    pub hashes : (m : ℕ) → base < m → m ≤ n → block_hash cfg.chain_id m db ≡ (ch.header m).hash

  -- The tables are the index of the new chain up to a block, which is not below the base.
  abbrev pub IsReindexed : ℕ → Database → Type 0
  IsReindexed a db =
      (base ≤ a)
      × (tables db ≡ tables (index_blocks f cfg.chain_id ch' (base + 1) (a - base) before))

  ancestor-Shares :
      (n a : ℕ) (db db' : Database)
      → IsIndexed n db
      → IsRecovered cfg.chain_id env n a db db'
      → Shares ch ch' base a
  ancestor-Shares n a db db' p r m low high = elim r.stopped [
    | inl genesis ↦ absurd (omega arith)
    | inr (t, h, answered, stored) ↦
        chained a m
          (sym (p.hashes a (omega arith) r.at_most)
            ∙ stored
            ∙ ap (λ k. k.hash) (still.headers t a h answered))
          high
  ]

  -- Where the node has gone over from the indexed chain to another, no commit is lost, and the logs
  -- carry their blocks' numbers, a reorganisation that is handled without an error either goes back
  -- below the base or leaves in the tables the index of the new chain up to the block that it returns,
  -- with no entry of a dropped block. With an error nothing has changed.
  pub handle_reorg-IsReindexed :
      NoLostCommit env
      → IsNumbered ch
      → RowsUpTo cfg.chain_id base before
      → (n : ℕ) (w : World) → IsIndexed n w.db
      → Ends
          (λ a w'. (a < base) ⊎ IsReindexed a w'.db)
          (λ _ w'. w'.db ≡ w.db)
          (handle_reorg env cfg.chain_id n w)
  handle_reorg-IsReindexed kept numbered rows n w p =
      Ends-weaken _ _ _ _ (handle_reorg env cfg.chain_id n w)
        (λ a w' r. elim (Bool-cases (ltb a base)) [
          | inl below ↦ inl (ground arith)
          | inr above ↦
              let low : base ≤ a = ground arith in
              inr (
                low,
                ap tables r.exact
                    ∙ rolled_back-index_blocks f cfg.chain_id ch ch' base a n before w.db numbered
                        (ancestor-Shares n a w.db w'.db p r) rows low r.at_most p.index,
              )
        ])
        (λ _ _ same. same) (handle_reorg-IsRecovered cfg.chain_id env n w kept)
