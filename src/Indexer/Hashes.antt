-- ===== src/Indexer/Hashes.antt =====
-- The block hashes that an index holds (internal/store/postgres/block.go).
use cca_go_indexer.Base.{
  ℕ, zero, suc, ◌+◌, ◌<◌, ◌≤◌, ◌≡◌, ◌==◌, refl, ap, ◌∙◌, inl, inr, Option, none, some, List, [],
  ◌∷◌, arith, Bool-cases, find,
}
use mathlib.Core.Path.{subst}
use cca_go_indexer.AuctionCreated.{Formats}
use cca_go_indexer.Indexer.Index.{
  Chain, tables, entry_at, add_entry, index_block, index_logs, index_blocks,
}
use cca_go_indexer.Store.Auctions.{insert_auction}
use cca_go_indexer.Store.Blocks.{insert_block, block_hash, scan_hash, is_block}
use cca_go_indexer.Store.Inserts.{
  IsFree, IsFree-insert_block, block_hash-insert_block, block_hash-insert_block_ne,
}
use cca_go_indexer.Store.RawEvents.{insert_raw_event}
use cca_go_indexer.Types.{Auction, Codec, Log, RawEvent}
use cca_go_indexer.World.Database.{Database}

module _ ⦃c : Codec⦄ (f : Formats) (chain : ℕ) where
  blocks-add_entry :
      (o : Option (RawEvent × Auction)) (db : Database)
      → (add_entry f chain o db).blocks ≡ db.blocks
  unfolding insert_auction insert_raw_event
  blocks-add_entry none db = refl
  blocks-add_entry (some (e, a)) db = refl

  blocks-index_logs :
      (ls : List Log) (db : Database) → (index_logs f chain ls db).blocks ≡ db.blocks
  unfolding index_logs
  blocks-index_logs [] db = refl
  blocks-index_logs (l ∷ ls) db =
      blocks-index_logs ls (add_entry f chain (entry_at f chain l l.topics) db)
      ∙ blocks-add_entry (entry_at f chain l l.topics) db

  block_hash-index_logs :
      (m : ℕ) (ls : List Log) (db : Database)
      → block_hash chain m (index_logs f chain ls db) ≡ block_hash chain m db
  unfolding block_hash
  block_hash-index_logs m ls db =
      ap (λ t. scan_hash (find (is_block chain m) t)) (blocks-index_logs ls db)

  IsFree-index_logs :
      (n : ℕ) (ls : List Log) (db : Database)
      → IsFree chain n db
      → IsFree chain n (index_logs f chain ls db)
  IsFree-index_logs n ls db free =
      λ k h. ap (find (is_block chain k)) (blocks-index_logs ls db) ∙ free k h

  -- The hashes of the blocks below an index are as before.
  pub block_hash-index_blocks_below :
      (ch : Chain) (m count from : ℕ) (db : Database)
      → m < from
      → block_hash chain m (index_blocks f chain ch from count db) ≡ block_hash chain m db
  unfolding index_blocks
  block_hash-index_blocks_below ch m zero from db h = refl
  block_hash-index_blocks_below ch m (suc count) from db h =
      block_hash-index_blocks_below ch m count (from + 1)
        (index_block f chain from (ch.header from) (ch.block_logs from) db) (omega arith)
      ∙ block_hash-insert_block_ne chain from (ch.header from).hash (ch.header from).parent_hash
          (index_logs f chain (ch.block_logs from) db) m (omega arith)
      ∙ block_hash-index_logs m (ch.block_logs from) db

  -- An index over no rows of its blocks holds the hashes of the chain.
  pub block_hash-index_blocks :
      (ch : Chain) (m count from : ℕ) (db : Database)
      → IsFree chain from db
      → from ≤ m
      → m < from + count
      → block_hash chain m (index_blocks f chain ch from count db) ≡ (ch.header m).hash
  unfolding index_blocks
  block_hash-index_blocks ch m zero from db free low high = absurd (omega arith)
  block_hash-index_blocks ch m (suc count) from db free low high =
      let logged = index_logs f chain (ch.block_logs from) db in
      let unlogged = IsFree-index_logs from (ch.block_logs from) db free in
      elim (Bool-cases (from == m)) [
        | inl e ↦
            let here : from ≡ m = ground arith in
            block_hash-index_blocks_below ch m count (from + 1)
              (index_block f chain from (ch.header from) (ch.block_logs from) db) (omega arith)
            ∙ subst
                (λ k.
                  block_hash chain k (
                    insert_block chain from (ch.header from).hash (ch.header from).parent_hash
                      logged)
                  ≡ (ch.header k).hash)
                here
                (block_hash-insert_block chain from (ch.header from).hash
                  (ch.header from).parent_hash logged (unlogged from (omega arith)))
        | inr e ↦
            block_hash-index_blocks ch m count (from + 1)
              (index_block f chain from (ch.header from) (ch.block_logs from) db)
              (IsFree-insert_block chain from (ch.header from).hash (ch.header from).parent_hash
                logged unlogged)
              (ground arith) (omega arith)
      ]

  -- The hashes do not regard the cursors.
  pub tables-block_hash :
      (n : ℕ) (db db' : Database)
      → tables db' ≡ tables db
      → block_hash chain n db' ≡ block_hash chain n db
  unfolding block_hash
  tables-block_hash n db db' e = ap (block_hash chain n) e
