-- ===== src/Indexer/Cut.antt =====
-- What the deletions of a rollback take away of an index (internal/indexer/reorg.go).
use cca_go_indexer.Base.{
  ℕ, ◌==◌, ◌&&◌, leb, zero, suc, ◌+◌, ◌<◌, ◌≡◌, refl, ◌∙◌, sym, Option, none, some, ◌⊎◌, inl, inr,
  false, List, [], ◌∷◌, map, arith, All, All-map, Option-cases, delete_where-insert_new,
  delete_where_none,
}
use mathlib.Core.Path.{subst}
use cca_go_indexer.AuctionCreated.{AuctionParams, Formats, auction_of, raw_event_of, decoded_map}
use cca_go_indexer.Indexer.Index.{
  Chain, decoded_entry, entry_at, add_entry, index_block, index_logs, index_blocks,
}
use cca_go_indexer.Store.Auctions
use cca_go_indexer.Store.Auctions.{
  insert_auction, delete_auctions, has_address, lower_hex, auction_row,
}
use cca_go_indexer.Store.Blocks
use cca_go_indexer.Store.Blocks.{insert_block, delete_blocks, is_block}
use cca_go_indexer.Store.RawEvents
use cca_go_indexer.Store.RawEvents.{insert_raw_event, delete_raw_events, same_event, raw_event_row}
use cca_go_indexer.Store.Rows.{RowsUpTo, UpTo}
use cca_go_indexer.Types.{Address, Auction, Codec, Hash, Log, RawEvent}
use cca_go_indexer.Text.{Text}
use cca_go_indexer.BigInt.{ℤ}
use cca_go_indexer.World.Database.{Database}

-- The logs of every block carry its number.
abbrev pub IsNumbered : Chain → Type 0
IsNumbered ch = (n : ℕ) → All (λ l. l.block_number ≡ n) (ch.block_logs n)

module _ ⦃c : Codec⦄ (f : Formats) (chain : ℕ) where
  -- A log has no entry, or one of the log with some decoded values.
  abbrev EntryOf : Log → Option (RawEvent × Auction) → Type 0
  EntryOf l o =
      (o ≡ none)
      ⊎ ((auction : Address) × (token : Address) × (topics : Text) × (decoded : Text) × (amount : ℤ)
          × (params : AuctionParams) × (o
              ≡ some (
                raw_event_of f chain l topics decoded,
                auction_of f chain l auction token amount params,
              )))

  decoded_entry-EntryOf :
      (l : Log) (auction token : Address) → EntryOf l (decoded_entry f chain l auction token)
  unfolding decoded_entry
  decoded_entry-EntryOf l auction token = elim (Option-cases (f.unpack_event l.payload)) [
    | inl e ↦ rw (e, decoded_entry) (inl refl)
    | inr ((amount, config), e) ↦ elim (Option-cases (f.unpack_params config)) [
      | inl e1 ↦ rw (e, decoded_entry, e1) (inl refl)
      | inr (params, e1) ↦ elim (Option-cases (f.marshal_strings (map c.hash_hex l.topics))) [
        | inl e2 ↦ rw (e, decoded_entry, e1, e2) (inl refl)
        | inr (topics, e2) ↦
            elim (Option-cases (f.marshal_map (decoded_map f auction token amount params))) [
              | inl e3 ↦ rw (e, decoded_entry, e1, e2, e3) (inl refl)
              | inr (decoded, e3) ↦
                  rw (e, decoded_entry, e1, e2, e3)
                    (inr (auction, token, topics, decoded, amount, params, refl))
            ]
      ]
    ]
  ]

  entry_at-EntryOf : (l : Log) (ts : List Hash) → EntryOf l (entry_at f chain l ts)
  entry_at-EntryOf l [] = inl refl
  entry_at-EntryOf l (t0 ∷ []) = inl refl
  entry_at-EntryOf l (t0 ∷ t1 ∷ []) = inl refl
  entry_at-EntryOf l (t0 ∷ t1 ∷ t2 ∷ ts) =
      decoded_entry-EntryOf l (c.bytes_to_address t1) (c.bytes_to_address t2)

  -- What holds of no entry, and of every entry that a log can have, holds of the log's.
  pub entry_at-elim :
      (P : Option (RawEvent × Auction) → Type 0) (l : Log)
      → P none
      → ((auction token : Address) (topics decoded : Text) (amount : ℤ) (params : AuctionParams)
          → P (
              some (
                raw_event_of f chain l topics decoded,
                auction_of f chain l auction token amount params,
              )))
      → P (entry_at f chain l l.topics)
  entry_at-elim P l h k = elim (entry_at-EntryOf l l.topics) [
    | inl e ↦ subst P (sym e) h
    | inr (auction, token, topics, decoded, amount, params, e) ↦
        subst P (sym e) (k auction token topics decoded amount params)
  ]

  -- The deletions of a rollback.
  unfoldable pub cut : ℕ → Database → Database
  cut a db =
      delete_blocks chain (a + 1)
        (delete_auctions chain (a + 1) (delete_raw_events chain (a + 1) db))

  cut-add_entry :
      (a : ℕ) (l : Log) (db : Database)
      → a < l.block_number
      → cut a (add_entry f chain (entry_at f chain l l.topics) db) ≡ cut a db
  unfolding cut delete_auctions delete_raw_events delete_blocks insert_auction insert_raw_event
  cut-add_entry a l db h =
      entry_at-elim (λ o. cut a (add_entry f chain o db) ≡ cut a db) l refl
        (λ auction token topics decoded amount params.
          let e = raw_event_of f chain l topics decoded in
          let u = auction_of f chain l auction token amount params in
          rw
            (
              delete_where-insert_new (has_address u.chain_id (lower_hex u.auction_address))
                  (Auctions.from_block chain (a + 1)) (auction_row u) (ground arith) db.auctions,
              delete_where-insert_new
                  (same_event e.chain_id e.block_number (c.hash_hex e.tx_hash) e.log_index)
                  (RawEvents.from_block chain (a + 1)) (raw_event_row e) (ground arith)
                  db.raw_events,
            )
            refl)

  cut-insert_block :
      (a n : ℕ) (hash parent : Hash) (db : Database)
      → a < n
      → cut a (insert_block chain n hash parent db) ≡ cut a db
  unfolding cut delete_auctions delete_raw_events delete_blocks insert_block
  cut-insert_block a n hash parent db h =
      rw
        (delete_where-insert_new (is_block chain n) (Blocks.from_block chain (a + 1))
          (record {
            chain_id = chain;
            block_number = n;
            block_hash = c.hash_hex hash;
            parent_hash = c.hash_hex parent;
          })
          (ground arith) db.blocks)
        refl

  cut-index_logs :
      (a : ℕ) (ls : List Log) (db : Database)
      → All (λ l. a < l.block_number) ls
      → cut a (index_logs f chain ls db) ≡ cut a db
  unfolding index_logs
  cut-index_logs a [] db h = refl
  cut-index_logs a (l ∷ ls) db h =
      cut-index_logs a ls (add_entry f chain (entry_at f chain l l.topics) db) h.1
      ∙ cut-add_entry a l db h.0

  -- A rollback takes away what was indexed above the block that it goes back to.
  pub cut-index_blocks :
      (a : ℕ) (ch : Chain)
      → IsNumbered ch
      → (count from : ℕ) (db : Database) → a < from
      → cut a (index_blocks f chain ch from count db) ≡ cut a db
  unfolding index_blocks
  cut-index_blocks a ch numbered zero from db h = refl
  cut-index_blocks a ch numbered (suc count) from db h =
      cut-index_blocks a ch numbered count (from + 1)
        (index_block f chain from (ch.header from) (ch.block_logs from) db) (omega arith)
      ∙ cut-insert_block a from (ch.header from).hash (ch.header from).parent_hash
          (index_logs f chain (ch.block_logs from) db) h
      ∙ cut-index_logs a (ch.block_logs from) db (
          All-map (λ l. l.block_number ≡ from) (λ l. a < l.block_number) (λ l e. omega arith)
            (ch.block_logs from) (numbered from))

  -- There is nothing to take away where no row of the chain is above the block.
  pub cut-RowsUpTo : (a : ℕ) (db : Database) → RowsUpTo chain a db → cut a db ≡ db
  unfolding cut delete_auctions delete_raw_events delete_blocks
  cut-RowsUpTo a db p =
      rw
        (
          delete_where_none (Auctions.from_block chain (a + 1)) db.auctions
              (All-map _ _ (λ r h. not_above r.chain_id r.block_number h) db.auctions p.auctions),
          delete_where_none (RawEvents.from_block chain (a + 1)) db.raw_events
              (All-map _ _ (λ r h. not_above r.chain_id r.block_number h) db.raw_events p.events),
          delete_where_none (Blocks.from_block chain (a + 1)) db.blocks
              (All-map _ _ (λ r h. not_above r.chain_id r.block_number h) db.blocks p.blocks),
        )
        refl
    where
      not_above :
          (row_chain row_block : ℕ)
          → UpTo chain a row_chain row_block
          → ((row_chain == chain) && leb (a + 1) row_block) ≡ false
      not_above row_chain row_block h = ground (arith, h)
