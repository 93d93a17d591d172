-- ===== src/Indexer/Forks.antt =====
-- What a rollback leaves of the index of a chain (internal/indexer/reorg.go).
use cca_go_indexer.Base.{
  ℕ, zero, suc, ◌+◌, ◌-◌, ◌<◌, ◌≤◌, ◌≡◌, refl, ap, ◌∙◌, sym, List, [], ◌∷◌, arith, All, All-map,
  All-insert_new,
}
use cca_go_indexer.AuctionCreated.{Formats, auction_of, raw_event_of}
use cca_go_indexer.Indexer.Index.{
  Chain, tables, entry_at, add_entry, index_block, index_logs, index_blocks, index_blocks-add,
}
use cca_go_indexer.Reorg.Rollback.{rolled_back}
use cca_go_indexer.Store.Auctions.{
  insert_auction, delete_auctions, has_address, lower_hex, auction_row,
}
use cca_go_indexer.Store.Blocks.{insert_block, delete_blocks, is_block}
use cca_go_indexer.Store.Cursors.{upsert_cursor}
use cca_go_indexer.Store.RawEvents.{insert_raw_event, delete_raw_events, same_event, raw_event_row}
use cca_go_indexer.Store.Rows.{RowsUpTo, RowsUpTo-weaken}
use cca_go_indexer.Types.{Codec, Hash, Log}
use cca_go_indexer.World.Database.{Database}
use cca_go_indexer.Indexer.Cut.{IsNumbered, entry_at-elim, cut, cut-index_blocks, cut-RowsUpTo}

-- The blocks above `base` and up to `n` are the same in two chains.
abbrev pub Shares : Chain → Chain → ℕ → ℕ → Type 0
Shares ch ch' base n =
    (m : ℕ) → base < m → m ≤ n → (ch.header m ≡ ch'.header m) × (ch.block_logs m ≡ ch'.block_logs m)

module _ ⦃c : Codec⦄ (f : Formats) (chain : ℕ) where
  RowsUpTo-index_logs :
      (to : ℕ) (ls : List Log) (db : Database)
      → All (λ l. l.block_number ≤ to) ls
      → RowsUpTo chain to db
      → RowsUpTo chain to (index_logs f chain ls db)
  unfolding index_logs insert_auction insert_raw_event
  RowsUpTo-index_logs to [] db h p = p
  RowsUpTo-index_logs to (l ∷ ls) db h p =
      RowsUpTo-index_logs to ls (add_entry f chain (entry_at f chain l l.topics) db) h.1 (
        entry_at-elim f chain (λ o. RowsUpTo chain to (add_entry f chain o db)) l p
          (λ auction token topics decoded amount params.
            let e = raw_event_of f chain l topics decoded in
            let u = auction_of f chain l auction token amount params in
            record {
              events =
                  All-insert_new _
                    (same_event e.chain_id e.block_number (c.hash_hex e.tx_hash) e.log_index)
                    (raw_event_row e) (λ _. h.0) db.raw_events p.events;
              auctions =
                  All-insert_new _ (has_address u.chain_id (lower_hex u.auction_address))
                    (auction_row u) (λ _. h.0) db.auctions p.auctions;
              blocks = p.blocks;
            }))

  RowsUpTo-insert_block :
      (to n : ℕ) (hash parent : Hash) (db : Database)
      → n ≤ to
      → RowsUpTo chain to db
      → RowsUpTo chain to (insert_block chain n hash parent db)
  unfolding insert_block
  RowsUpTo-insert_block to n hash parent db h p = record {
    events = p.events;
    auctions = p.auctions;
    blocks = All-insert_new _ (is_block chain n) _ (λ _. h) db.blocks p.blocks;
  }

  RowsUpTo-index_blocks :
      (to : ℕ) (ch : Chain)
      → IsNumbered ch
      → (count from : ℕ) (db : Database) → from + count ≤ to + 1
      → RowsUpTo chain to db
      → RowsUpTo chain to (index_blocks f chain ch from count db)
  unfolding index_blocks
  RowsUpTo-index_blocks to ch numbered zero from db h p = p
  RowsUpTo-index_blocks to ch numbered (suc count) from db h p =
      RowsUpTo-index_blocks to ch numbered count (from + 1)
        (index_block f chain from (ch.header from) (ch.block_logs from) db) (omega arith)
        (RowsUpTo-insert_block to from (ch.header from).hash (ch.header from).parent_hash
          (index_logs f chain (ch.block_logs from) db) (omega arith)
          (RowsUpTo-index_logs to (ch.block_logs from) db
            (All-map (λ l. l.block_number ≡ from) (λ l. l.block_number ≤ to) (λ l e. omega arith)
              (ch.block_logs from) (numbered from))
            p))

  -- Chains that share these blocks have the same index of them.
  pub index_blocks_shared :
      (ch ch' : Chain) (base n : ℕ)
      → Shares ch ch' base n
      → (count from : ℕ) (db : Database) → base < from
      → from + count ≤ n + 1
      → index_blocks f chain ch from count db ≡ index_blocks f chain ch' from count db
  unfolding index_blocks
  index_blocks_shared ch ch' base n shares zero from db low h = refl
  index_blocks_shared ch ch' base n shares (suc count) from db low h =
      let (same_header, same_logs) = shares from low (omega arith) in
      rw (same_header, same_logs)
        (index_blocks_shared ch ch' base n shares count (from + 1)
          (index_block f chain from (ch'.header from) (ch'.block_logs from) db) (omega arith)
          (omega arith))

  tables-rolled_back :
      (a : ℕ) (db : Database) → tables (rolled_back chain a db) ≡ cut f chain a (tables db)
  unfolding rolled_back cut upsert_cursor delete_auctions delete_raw_events delete_blocks
  tables-rolled_back a db = refl

  tables-cut : (a : ℕ) (db : Database) → cut f chain a (tables db) ≡ tables (cut f chain a db)
  unfolding cut delete_auctions delete_raw_events delete_blocks
  tables-cut a db = refl

  -- A rollback to a block that the index has takes it back to the index of the blocks up to there, of
  -- this chain and of any other that shares them.
  pub rolled_back-index_blocks :
      (ch ch' : Chain) (base a n : ℕ) (before db : Database)
      → IsNumbered ch
      → Shares ch ch' base a
      → RowsUpTo chain base before
      → base ≤ a
      → a ≤ n
      → tables db ≡ tables (index_blocks f chain ch (base + 1) (n - base) before)
      → tables (rolled_back chain a db)
        ≡ tables (index_blocks f chain ch' (base + 1) (a - base) before)
  rolled_back-index_blocks ch ch' base a n before db numbered shares rows low high so_far =
      let kept = index_blocks f chain ch (base + 1) (a - base) before in
      tables-rolled_back a db
      ∙ ap (cut f chain a) so_far
      ∙ tables-cut a (index_blocks f chain ch (base + 1) (n - base) before)
      ∙ ap tables (
          ap (cut f chain a) (
            sym (
              index_blocks-add f chain ch (a - base) (n - a) (base + 1) (a + 1) (n - base) before
                (omega arith) (omega arith)))
          ∙ cut-index_blocks f chain a ch numbered (n - a) (a + 1) kept (omega arith)
          ∙ cut-RowsUpTo f chain a kept (
              RowsUpTo-index_blocks a ch numbered (a - base) (base + 1) before (omega arith)
                (RowsUpTo-weaken chain base a before low rows))
          ∙ index_blocks_shared ch ch' base a shares (a - base) (base + 1) before (omega arith)
              (omega arith))

  -- A rollback to a block below the index leaves nothing of it.
  pub rolled_back-index_blocks_below :
      (ch : Chain) (base a count : ℕ) (before db : Database)
      → IsNumbered ch
      → RowsUpTo chain a before
      → a < base
      → tables db ≡ tables (index_blocks f chain ch (base + 1) count before)
      → tables (rolled_back chain a db) ≡ tables before
  rolled_back-index_blocks_below ch base a count before db numbered rows h so_far =
      tables-rolled_back a db
      ∙ ap (cut f chain a) so_far
      ∙ tables-cut a (index_blocks f chain ch (base + 1) count before)
      ∙ ap tables (
          cut-index_blocks f chain a ch numbered count (base + 1) before (omega arith)
          ∙ cut-RowsUpTo f chain a before rows)
