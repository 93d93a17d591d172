-- ===== src/Indexer/Batch.antt =====
-- What the transaction of a batch writes (`ChainIndexer.Run` in internal/indexer/indexer.go).
use cca_go_indexer.Base.{
  ℕ, zero, suc, ◌+◌, ◌<◌, ◌≤◌, ◌≡◌, refl, ap, sym, ◌∙◌, inl, inr, none, some, List, [], ◌∷◌, arith,
  All, find, length, get_elem?, Bool-cases,
}
use mathlib.Core.Path.{subst}
use cca_go_indexer.Base.Effect.{Ends, Ends-and_then, Ends-weaken}
use cca_go_indexer.Indexer.{IndexerConfig, insert_blocks, store_batch}
use cca_go_indexer.Registry.{HandlerMap, handle_logs}
use cca_go_indexer.Registry.Dispatch.{Written, LogsUpTo, AreRowHandlers, handle_logs-Writes}
use cca_go_indexer.Store.Blocks.{insert_block, block_hash, scan_hash, is_block}
use cca_go_indexer.Store.Cursors.{upsert_cursor, stored_cursor, stored_cursor-upsert_cursor}
use cca_go_indexer.Store.Cursors
use cca_go_indexer.Store.Inserts.{
  IsFree, BlocksUpTo-IsFree, block_hash-insert_block, block_hash-insert_block_ne,
  BlocksUpTo-insert_block, IsFree-insert_block,
}
use cca_go_indexer.Store.Rows.{UpTo, BlocksUpTo, RowsUpTo, RowsUpTo-weaken}
use cca_go_indexer.Types.{BlockHeader, Codec, Hash, Log}
use cca_go_indexer.World.Calls.{Env, World, exec, wrap, wrap-Ends}
use cca_go_indexer.World.Database.{Database}
use cca_go_indexer.World.Errors.{handling_logs, upserting_cursor}

module _ ⦃c : Codec⦄ (env : Env) (cfg : IndexerConfig) (registry : HandlerMap) where
  -- The headers are stored for the blocks from `n` on, and the other tables are as they were.
  pub record Inserted (to n : ℕ) (hs : List BlockHeader) (db db' : Database) : Type 0 where
    pub events : db'.raw_events ≡ db.raw_events
    pub auctions : db'.auctions ≡ db.auctions
    pub cursors : db'.cursors ≡ db.cursors
    pub rows : BlocksUpTo cfg.chain_id to db'
    pub below : (k : ℕ) → k < n → block_hash cfg.chain_id k db' ≡ block_hash cfg.chain_id k db
    pub stored :
        (i : ℕ) (h : BlockHeader)
        → get_elem? hs i ≡ some h
        → block_hash cfg.chain_id (n + i) db' ≡ h.hash

  nil-Inserted : (to n : ℕ) (db : Database) → BlocksUpTo cfg.chain_id to db → Inserted to n [] db db
  nil-Inserted to n db p = record {
    events = refl;
    auctions = refl;
    cursors = refl;
    rows = p;
    below = λ k h. refl;
    stored = λ i h e. absurd (cc);
  }

  cons-Inserted :
      (to n : ℕ) (h : BlockHeader) (hs : List BlockHeader) (db db' : Database)
      → IsFree cfg.chain_id n db
      → Inserted to (n + 1) hs (insert_block cfg.chain_id n h.hash h.parent_hash db) db'
      → Inserted to n (h ∷ hs) db db'
  unfolding insert_block
  cons-Inserted to n h hs db db' free rest = record {
    events = rest.events;
    auctions = rest.auctions;
    cursors = rest.cursors;
    rows = rest.rows;
    below = λ k p.
        rest.below k (omega arith)
        ∙ block_hash-insert_block_ne cfg.chain_id n h.hash h.parent_hash db k (omega arith);
    stored = stored_at;
  }
    where
      stored_at :
          (i : ℕ) (g : BlockHeader)
          → get_elem? (h ∷ hs) i ≡ some g
          → block_hash cfg.chain_id (n + i) db' ≡ g.hash
      stored_at zero g e =
          let same : h ≡ g = cc in
          ap (λ k. block_hash cfg.chain_id k db') (omega arith)
          ∙ rest.below n (omega arith)
          ∙ block_hash-insert_block cfg.chain_id n h.hash h.parent_hash db (free n (omega arith))
          ∙ ap (λ k. k.hash) same
      stored_at (suc i) g e =
          ap (λ k. block_hash cfg.chain_id k db') (omega arith) ∙ rest.stored i g e

  insert_blocks-Inserted :
      (to n : ℕ) (hs : List BlockHeader) (w : World)
      → IsFree cfg.chain_id n w.db
      → BlocksUpTo cfg.chain_id to w.db
      → n + length hs ≤ to + 1
      → Ends
          (λ _ w'. Inserted to n hs w.db w'.db)
          (λ _ _. Unit {0})
          (insert_blocks env cfg registry n hs w)
  unfolding insert_blocks exec
  insert_blocks-Inserted to n [] w free up fits = nil-Inserted to n w.db up
  insert_blocks-Inserted to n (h ∷ hs) w free up fits =
      elim (Bool-cases (env.statement_fails w.now)) [
        | inl e ↦ rw e tt
        | inr e ↦ rw e (
            Ends-weaken _ _ _ _ (insert_blocks env cfg registry (n + 1) hs next)
              (λ _ w'. cons-Inserted to n h hs w.db w'.db free) (λ _ _ u. u)
              (insert_blocks-Inserted to (n + 1) hs next
                (IsFree-insert_block cfg.chain_id n h.hash h.parent_hash w.db free)
                (BlocksUpTo-insert_block cfg.chain_id n h.hash h.parent_hash w.db to (omega arith)
                  up (free n (omega arith)))
                (omega arith)))
      ]
    where
      next : World
      next = record { db = insert_block cfg.chain_id n h.hash h.parent_hash w.db; now = suc w.now }

  -- After a batch: no row of the chain is above its last block, the cursor is there, the batch's
  -- blocks have the hashes of their headers, and the blocks before are as they were.
  pub record IsStored (from to : ℕ) (hs : List BlockHeader) (last : Hash) (db db' : Database)
      : Type 0 where
    pub rows : RowsUpTo cfg.chain_id to db'
    pub cursor : stored_cursor cfg.chain_id db' ≡ (to, last)
    pub below : (k : ℕ) → k < from → block_hash cfg.chain_id k db' ≡ block_hash cfg.chain_id k db
    pub stored :
        (i : ℕ) (h : BlockHeader)
        → get_elem? hs i ≡ some h
        → block_hash cfg.chain_id (from + i) db' ≡ h.hash

  save_cursor-IsStored :
      (from to : ℕ) (hs : List BlockHeader) (last : Hash) (db d1 d2 : Database)
      → Written cfg.chain_id to db d1
      → Inserted to from hs d1 d2
      → IsStored from to hs last db (upsert_cursor cfg.chain_id to last d2)
  unfolding upsert_cursor block_hash
  save_cursor-IsStored from to hs last db d1 d2 p q = record {
    rows = record {
      events =
          subst (All (λ r. UpTo cfg.chain_id to r.chain_id r.block_number)) (sym q.events) p.events;
      auctions =
          subst (All (λ r. UpTo cfg.chain_id to r.chain_id r.block_number)) (sym q.auctions)
            p.auctions;
      blocks = q.rows;
    };
    cursor = stored_cursor-upsert_cursor cfg.chain_id to last d2;
    below = λ k h. q.below k h ∙ ap (λ t. scan_hash (find (is_block cfg.chain_id k) t)) p.blocks;
    stored = q.stored;
  }

  save-Ends :
      (from to : ℕ) (hs : List BlockHeader) (last : Hash) (db d1 : Database) (w : World)
      → Written cfg.chain_id to db d1
      → Inserted to from hs d1 w.db
      → Ends
          (λ _ w'. IsStored from to hs last db w'.db)
          (λ _ _. Unit {0})
          (wrap upserting_cursor (Cursors.save env cfg.chain_id to last) w)
  unfolding exec
  save-Ends from to hs last db d1 w p q = elim (Bool-cases (env.statement_fails w.now)) [
    | inl e ↦ rw e tt
    | inr e ↦ rw e (save_cursor-IsStored from to hs last db d1 w.db p q)
  ]

  -- The batch after the block `n`, whose logs are of its blocks, is stored where its transaction's
  -- function returns no error.
  pub store_batch-IsStored :
      (n to : ℕ) (ls : List Log) (hs : List BlockHeader) (last : Hash) (w : World)
      → AreRowHandlers registry
      → LogsUpTo to ls
      → RowsUpTo cfg.chain_id n w.db
      → n ≤ to
      → n + length hs ≤ to
      → Ends
          (λ _ w'. IsStored (n + 1) to hs last w.db w'.db)
          (λ _ _. Unit {0})
          (store_batch env cfg registry (n + 1) to ls hs last w)
  unfolding store_batch
  store_batch-IsStored n to ls hs last w handlers logs rows le fits =
      let wide = RowsUpTo-weaken cfg.chain_id n to w.db le rows in
      Ends-and_then (λ _ w1. Written cfg.chain_id to w.db w1.db) _ _
        (wrap handling_logs (handle_logs registry cfg.chain_id ls) w) _
        (wrap-Ends handling_logs _ _ (handle_logs registry cfg.chain_id ls w) (
          handle_logs-Writes cfg.chain_id to registry handlers ls logs w wide.events wide.auctions))
        (λ _ w1 p.
          Ends-and_then (λ _ w2. Inserted to (n + 1) hs w1.db w2.db) _ _
            (insert_blocks env cfg registry (n + 1) hs w1) _
            (insert_blocks-Inserted to (n + 1) hs w1
              (subst (λ t. (k : ℕ) → n + 1 ≤ k → find (is_block cfg.chain_id k) t ≡ none)
                (sym p.blocks) (BlocksUpTo-IsFree cfg.chain_id n w.db rows.blocks))
              (subst (All (λ r. UpTo cfg.chain_id to r.chain_id r.block_number)) (sym p.blocks)
                wide.blocks)
              (omega arith))
            (λ _ w2 q. save-Ends (n + 1) to hs last w.db w1.db w2 p q))
