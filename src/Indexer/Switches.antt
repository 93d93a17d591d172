-- ===== src/Indexer/Switches.antt =====
-- The index of one of the chains that the node may be on, and what a rollback makes of it
-- (internal/indexer/indexer.go, internal/indexer/reorg.go).
use cca_go_indexer.Base.{
  ℕ, zero, suc, ◌+◌, ◌-◌, ◌<◌, ◌≤◌, ◌≡◌, ◌≢◌, refl, ap, ◌∙◌, inl, inr, arith, Bool-cases, ltb,
}
use cca_go_indexer.AuctionCreated.{Formats}
use cca_go_indexer.Indexer.{IndexerConfig}
use cca_go_indexer.Indexer.Cut.{IsNumbered}
use cca_go_indexer.Indexer.Forks.{
  Shares, index_blocks_shared, rolled_back-index_blocks, rolled_back-index_blocks_below,
}
use cca_go_indexer.Indexer.Hashes.{block_hash-index_blocks, tables-block_hash}
use cca_go_indexer.Indexer.Index.{Chain, tables, index_blocks}
use cca_go_indexer.Indexer.Reorged.{AreChained}
use cca_go_indexer.Reorg.Rollback.{rolled_back}
use cca_go_indexer.Store.Blocks.{block_hash, scan_hash}
use cca_go_indexer.Store.Inserts.{IsFree, BlocksUpTo-IsFree}
use cca_go_indexer.Store.Rows.{RowsUpTo, RowsUpTo-weaken}
use cca_go_indexer.Types.{Codec, zero_hash}
use cca_go_indexer.World.Database.{Database}

-- The chains that the node may be on, one after the other: their logs carry their blocks' numbers, no
-- block has the zero hash, and a block's hash fixes it and the blocks below it.
pub record Chains : Type 1 where
  pub Possible : Chain → Type 0
  pub numbered : (ch : Chain) → Possible ch → IsNumbered ch
  pub hashed : (ch : Chain) → Possible ch → (n : ℕ) → (ch.header n).hash ≢ zero_hash
  pub chained : (ch ch' : Chain) → Possible ch → Possible ch' → AreChained ch ch'
  pub initial : Chain
  pub initially : Possible initial

module _ ⦃c : Codec⦄ (f : Formats) (cfg : IndexerConfig) (chains : Chains) (base : ℕ)
    (before : Database) (rows : RowsUpTo cfg.chain_id 0 before) where
  -- The tables are the index of the chain's blocks up to `n`, from some block on that is at most one
  -- above the base.
  pub record IsIndexOf (ch : Chain) (n : ℕ) (db : Database) : Type 0 where
    pub from : ℕ
    pub low : from ≤ base
    pub high : from ≤ n
    pub index : tables db ≡ tables (index_blocks f cfg.chain_id ch (from + 1) (n - from) before)

  -- The tables are the index of one of the chains.
  abbrev pub IsIndex : ℕ → Database → Type 0
  IsIndex n db = (ch : Chain) × chains.Possible ch × IsIndexOf ch n db

  none_above : (n : ℕ) → IsFree cfg.chain_id (n + 1) before
  none_above n =
      BlocksUpTo-IsFree cfg.chain_id n before
        (RowsUpTo-weaken cfg.chain_id 0 n before (omega arith) rows).blocks

  -- The index holds the chain's hashes.
  pub IsIndexOf-block_hash :
      (ch : Chain) (n m : ℕ) (db : Database) (p : IsIndexOf ch n db)
      → p.from < m
      → m ≤ n
      → block_hash cfg.chain_id m db ≡ (ch.header m).hash
  IsIndexOf-block_hash ch n m db p low high =
      tables-block_hash f cfg.chain_id m
        (index_blocks f cfg.chain_id ch (p.from + 1) (n - p.from) before) db p.index
      ∙ block_hash-index_blocks f cfg.chain_id ch m (n - p.from) (p.from + 1) before
          (none_above p.from) (omega arith) (omega arith)

  -- Where no block is indexed the tables are those of before.
  pub IsIndexOf-tables :
      (ch : Chain) (n : ℕ) (db : Database) (p : IsIndexOf ch n db)
      → n ≤ p.from
      → tables db ≡ tables before
  unfolding index_blocks
  IsIndexOf-tables ch n db p h =
      let empty : n - p.from ≡ 0 = omega arith in
      p.index ∙ ap (λ i. tables (index_blocks f cfg.chain_id ch (p.from + 1) i before)) empty

  none_stored :
      block_hash cfg.chain_id 0 before ≡ zero_hash
      → (n : ℕ) → block_hash cfg.chain_id n before ≡ zero_hash
  unfolding block_hash
  none_stored no_genesis zero = no_genesis
  none_stored no_genesis (suc n) = ap scan_hash (none_above n (suc n) (omega arith))

  -- Then no hash is stored either.
  pub IsIndexOf-no_hash :
      (ch : Chain) (n : ℕ) (db : Database) (p : IsIndexOf ch n db)
      → block_hash cfg.chain_id 0 before ≡ zero_hash
      → n ≤ p.from
      → (m : ℕ) → block_hash cfg.chain_id m db ≡ zero_hash
  IsIndexOf-no_hash ch n db p no_genesis h m =
      tables-block_hash f cfg.chain_id m before db (IsIndexOf-tables ch n db p h)
      ∙ none_stored no_genesis m

  -- An equal hash makes two of the chains share the blocks below.
  pub same-Shares :
      (ch ch' : Chain) (base' n : ℕ)
      → chains.Possible ch
      → chains.Possible ch'
      → (base' < n → (ch.header n).hash ≡ (ch'.header n).hash)
      → Shares ch ch' base' n
  same-Shares ch ch' base' n p p' same m low high =
      chains.chained ch ch' p p' n m (same (omega arith)) high

  -- Chains that share the indexed blocks have the same index.
  pub shared-IsIndexOf :
      (ch ch' : Chain) (n : ℕ) (db : Database) (p : IsIndexOf ch n db)
      → Shares ch ch' p.from n
      → IsIndexOf ch' n db
  shared-IsIndexOf ch ch' n db p shares = record {
    from = p.from;
    low = p.low;
    high = p.high;
    index =
        p.index
        ∙ ap tables (
            index_blocks_shared f cfg.chain_id ch ch' p.from n shares (n - p.from) (p.from + 1)
              before (omega arith) (omega (arith, p.high)));
  }

  -- With nothing of the chain in the tables, nothing is indexed.
  pub none-IsIndexOf :
      (ch : Chain) (n : ℕ) (db : Database)
      → n ≤ base
      → tables db ≡ tables before
      → IsIndexOf ch n db
  none-IsIndexOf ch n db h e = record {
    from = n;
    low = h;
    high = omega arith;
    index =
        e
        ∙ index_none
        ∙ ap (λ i. tables (index_blocks f cfg.chain_id ch (n + 1) i before)) none_left;
  }
    where
      index_none : tables before ≡ tables (index_blocks f cfg.chain_id ch (n + 1) 0 before)
      index_none = unfold index_blocks in refl

      none_left : 0 ≡ n - n
      none_left = omega arith

  -- A rollback leaves the index of the chain up to the block that it goes back to, of this chain and of
  -- any other that shares them; below the first indexed block nothing of it is left.
  pub rolled_back-IsIndexOf :
      (ch ch' : Chain) (a n : ℕ) (db : Database) (p : IsIndexOf ch n db)
      → IsNumbered ch
      → Shares ch ch' p.from a
      → a ≤ n
      → IsIndexOf ch' a (rolled_back cfg.chain_id a db)
  rolled_back-IsIndexOf ch ch' a n db p numbered shares h = elim (Bool-cases (ltb a p.from)) [
    | inl below ↦ none-IsIndexOf ch' a (rolled_back cfg.chain_id a db) (ground (arith, p.low)) (
        rolled_back-index_blocks_below f cfg.chain_id ch p.from a (n - p.from) before db numbered
          (RowsUpTo-weaken cfg.chain_id 0 a before (omega arith) rows) (ground arith) p.index)
    | inr above ↦ record {
      from = p.from;
      low = p.low;
      high = ground arith;
      index =
          rolled_back-index_blocks f cfg.chain_id ch ch' p.from a n before db numbered shares
            (RowsUpTo-weaken cfg.chain_id 0 p.from before (omega arith) rows) (ground arith) h
            p.index;
    }
  ]
