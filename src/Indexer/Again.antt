-- ===== src/Indexer/Again.antt =====
-- What a batch leaves that is stored again, since the answer to its commit was lost
-- (internal/indexer/indexer.go).
use cca_go_indexer.Base.{
  ℕ, zero, suc, ◌+◌, ◌≡◌, refl, ap, ◌∙◌, sym, Option, none, some, List, [], ◌∷◌, arith, All,
  All-map, ==_self,
}
use cca_go_indexer.AuctionCreated.{Formats}
use cca_go_indexer.Base.Effect.{Ends, Ends-weaken}
use cca_go_indexer.Indexer.{IndexerConfig, store_batch}
use cca_go_indexer.Indexer.Index.{
  Chain, logs_from, headers_from, tables, entry_at, add_entry, index_logs, index_block,
  index_blocks, tables-index_blocks,
}
use cca_go_indexer.Indexer.Still.{IsStill, store_batch-index_blocks}
use cca_go_indexer.Registry.{HandlerMap}
use cca_go_indexer.Store.Auctions.{insert_auction, has_address, lower_hex, auction_row}
use cca_go_indexer.Store.Blocks.{insert_block, is_block}
use cca_go_indexer.Store.RawEvents.{insert_raw_event, raw_event_row, same_event}
use cca_go_indexer.Text.{text_eq_self}
use cca_go_indexer.Types.{Auction, Codec, Hash, Log, RawEvent}
use cca_go_indexer.World.Calls.{Env, World}
use cca_go_indexer.World.Database.{Database}
use cca_go_indexer.Indexer.Present.{
  Present, insert_new_idle, insert_new-Present, Grows, insert_block-Grows, index_logs-Grows,
  index_blocks-Grows,
}

module _ ⦃c : Codec⦄ (f : Formats) (chain : ℕ) where
  -- The rows of an entry, of a block's logs, and of so many blocks are there.
  abbrev HasEntry : Option (RawEvent × Auction) → Database → Type 0
  HasEntry none db = Unit {0}
  HasEntry (some (e, a)) db =
      Present (same_event e.chain_id e.block_number (c.hash_hex e.tx_hash) e.log_index)
        db.raw_events
      × Present (has_address a.chain_id (lower_hex a.auction_address)) db.auctions

  abbrev HasLogs : List Log → Database → Type 0
  HasLogs ls db = All (λ l. HasEntry (entry_at f chain l l.topics) db) ls

  abbrev pub HasBlocks : Chain → ℕ → ℕ → Database → Type 0
  HasBlocks ch from zero db = Unit {0}
  HasBlocks ch from (suc count) db =
      HasLogs (ch.block_logs from) db
      × Present (is_block chain from) db.blocks
      × HasBlocks ch (from + 1) count db

  HasEntry-Grows :
      (o : Option (RawEvent × Auction)) (db db' : Database)
      → Grows db db'
      → HasEntry o db
      → HasEntry o db'
  HasEntry-Grows none db db' g h = tt
  HasEntry-Grows (some (e, a)) db db' g h = (g.events _ h.0, g.auctions _ h.1)

  HasLogs-Grows :
      (ls : List Log) (db db' : Database) → Grows db db' → HasLogs ls db → HasLogs ls db'
  HasLogs-Grows ls db db' g h =
      All-map _ _ (λ l k. HasEntry-Grows (entry_at f chain l l.topics) db db' g k) ls h

  add_entry-HasEntry :
      (o : Option (RawEvent × Auction)) (db : Database) → HasEntry o (add_entry f chain o db)
  unfolding insert_raw_event insert_auction
  add_entry-HasEntry none db = tt
  add_entry-HasEntry (some (e, a)) db = (
    insert_new-Present (same_event e.chain_id e.block_number (c.hash_hex e.tx_hash) e.log_index)
        (raw_event_row e) db.raw_events (ground (arith, text_eq_self (c.hash_hex e.tx_hash))),
    insert_new-Present (has_address a.chain_id (lower_hex a.auction_address)) (auction_row a)
        db.auctions (ground (arith, text_eq_self (lower_hex a.auction_address))),
  )

  index_logs-HasLogs : (ls : List Log) (db : Database) → HasLogs ls (index_logs f chain ls db)
  unfolding index_logs
  index_logs-HasLogs [] db = tt
  index_logs-HasLogs (l ∷ ls) db =
      let after = add_entry f chain (entry_at f chain l l.topics) db in
      (
        HasEntry-Grows (entry_at f chain l l.topics) after (index_logs f chain ls after)
            (index_logs-Grows f chain ls after)
            (add_entry-HasEntry (entry_at f chain l l.topics) db),
        index_logs-HasLogs ls after,
      )

  insert_block-Present :
      (n : ℕ) (hash parent : Hash) (db : Database)
      → Present (is_block chain n) (insert_block chain n hash parent db).blocks
  unfolding insert_block
  insert_block-Present n hash parent db =
      insert_new-Present (is_block chain n) _ db.blocks (ground (arith, ==_self chain, ==_self n))

  pub index_blocks-HasBlocks :
      (ch : Chain) (count from : ℕ) (db : Database)
      → HasBlocks ch from count (index_blocks f chain ch from count db)
  unfolding index_blocks
  index_blocks-HasBlocks ch zero from db = tt
  index_blocks-HasBlocks ch (suc count) from db =
      let logged = index_logs f chain (ch.block_logs from) db in
      let first = index_block f chain from (ch.header from) (ch.block_logs from) db in
      let rest = index_blocks-Grows f chain ch count (from + 1) first in
      (
        HasLogs-Grows (ch.block_logs from) first _ rest (
            HasLogs-Grows (ch.block_logs from) logged first
              (insert_block-Grows f chain from (ch.header from).hash (ch.header from).parent_hash
                logged)
              (index_logs-HasLogs (ch.block_logs from) db)),
        rest.blocks _
            (insert_block-Present from (ch.header from).hash (ch.header from).parent_hash logged),
        index_blocks-HasBlocks ch count (from + 1) first,
      )

  add_entry_again :
      (o : Option (RawEvent × Auction)) (db : Database)
      → HasEntry o db
      → add_entry f chain o db ≡ db
  unfolding insert_raw_event insert_auction
  add_entry_again none db h = refl
  add_entry_again (some (e, a)) db h =
      rw
        (
          insert_new_idle (same_event e.chain_id e.block_number (c.hash_hex e.tx_hash) e.log_index)
              (raw_event_row e) db.raw_events h.0,
          insert_new_idle (has_address a.chain_id (lower_hex a.auction_address)) (auction_row a)
              db.auctions h.1,
        )
        refl

  index_logs_again : (ls : List Log) (db : Database) → HasLogs ls db → index_logs f chain ls db ≡ db
  unfolding index_logs
  index_logs_again [] db h = refl
  index_logs_again (l ∷ ls) db h =
      ap (index_logs f chain ls) (add_entry_again (entry_at f chain l l.topics) db h.0)
      ∙ index_logs_again ls db h.1

  insert_block_again :
      (n : ℕ) (hash parent : Hash) (db : Database)
      → Present (is_block chain n) db.blocks
      → insert_block chain n hash parent db ≡ db
  unfolding insert_block
  insert_block_again n hash parent db h = rw (insert_new_idle (is_block chain n) _ db.blocks h) refl

  -- What is there is not indexed again.
  pub index_blocks_present :
      (ch : Chain) (count from : ℕ) (db : Database)
      → HasBlocks ch from count db
      → index_blocks f chain ch from count db ≡ db
  unfolding index_blocks
  index_blocks_present ch zero from db h = refl
  index_blocks_present ch (suc count) from db h =
      ap (index_blocks f chain ch (from + 1) count) (
        ap (insert_block chain from (ch.header from).hash (ch.header from).parent_hash)
          (index_logs_again (ch.block_logs from) db h.0)
        ∙ insert_block_again from (ch.header from).hash (ch.header from).parent_hash db h.1)
      ∙ index_blocks_present ch count (from + 1) db h.2

  -- What was indexed is not indexed twice.
  index_blocks_again :
      (ch : Chain) (count from : ℕ) (db : Database)
      → index_blocks f chain ch from count (index_blocks f chain ch from count db)
        ≡ index_blocks f chain ch from count db
  index_blocks_again ch count from db =
      index_blocks_present ch count from _ (index_blocks-HasBlocks ch count from db)

module _ ⦃c : Codec⦄ (f : Formats) (env : Env) (cfg : IndexerConfig) (registry : HandlerMap)
    (ch : Chain) (still : IsStill f env cfg registry ch) where
  -- A batch whose tables hold its index already, as after a commit that was carried out and reported as
  -- failed, is stored again without a change to the tables, where the statements succeed.
  pub store_batch_again :
      (from to count : ℕ) (last : Hash) (before : Database) (w : World)
      → tables w.db ≡ tables (index_blocks f cfg.chain_id ch from count before)
      → Ends
          (λ _ w'. tables w'.db ≡ tables w.db)
          (λ _ _. Unit {0})
          (store_batch env cfg registry from to
            (logs_from ch from count)
            (headers_from ch from count)
            last
            w)
  store_batch_again from to count last before w so_far =
      Ends-weaken _ _ _ _
        (store_batch env cfg registry from to (logs_from ch from count) (headers_from ch from count)
          last w)
        (λ _ w' (e, _).
          e
          ∙ sym (tables-index_blocks f cfg.chain_id ch count from w.db)
          ∙ ap (index_blocks f cfg.chain_id ch from count) so_far
          ∙ tables-index_blocks f cfg.chain_id ch count from
              (index_blocks f cfg.chain_id ch from count before)
          ∙ ap tables (index_blocks_again f cfg.chain_id ch count from before)
          ∙ sym so_far)
        (λ _ _ u. u) (store_batch-index_blocks f env cfg registry ch still from to count last w)
