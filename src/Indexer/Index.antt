-- ===== src/Indexer/Index.antt =====
-- What the tables are an index of: the entries of the blocks of a chain, block by block, with no
-- regard to batches (internal/indexer/indexer.go, internal/indexer/handlers/auction_created.go).
use cca_go_indexer.Base.{
  ℕ, zero, suc, ◌+◌, ◌-◌, ◌≤◌, ◌≡◌, refl, ap, ◌∙◌, sym, Option, none, some, List, [], ◌∷◌, ◌++◌,
  map, arith,
}
use cca_go_indexer.AuctionCreated.{Formats, auction_of, raw_event_of, decoded_map}
use cca_go_indexer.Store.Auctions.{insert_auction}
use cca_go_indexer.Store.Blocks.{insert_block}
use cca_go_indexer.Store.RawEvents.{insert_raw_event}
use cca_go_indexer.Types.{Address, Auction, BlockHeader, Codec, Hash, Log, RawEvent}
use cca_go_indexer.World.Database.{Database}

-- A chain that stands still: its headers, and of each block the logs of the watched event.
pub record Chain : Type 0 where
  pub header : ℕ → BlockHeader
  pub block_logs : ℕ → List Log

-- The logs and the headers of so many blocks, from the block `from` on.
unfoldable pub logs_from : Chain → ℕ → ℕ → List Log
logs_from ch from zero = []
logs_from ch from (suc count) = ch.block_logs from ++ logs_from ch (from + 1) count

unfoldable pub headers_from : Chain → ℕ → ℕ → List BlockHeader
headers_from ch from zero = []
headers_from ch from (suc count) = ch.header from ∷ headers_from ch (from + 1) count

-- The database without its cursors.
abbrev pub tables : Database → Database
tables db = record db { cursors = [] }

module _ ⦃c : Codec⦄ (f : Formats) (chain : ℕ) where
  -- What a log means: a raw event and an auction, or nothing where it is none.
  unfoldable pub decoded_entry : Log → Address → Address → Option (RawEvent × Auction)
  decoded_entry log auction token = elim (f.unpack_event log.payload) [
    | none ↦ none
    | some (amount, config) ↦ elim (f.unpack_params config) [
      | none ↦ none
      | some params ↦ elim (f.marshal_strings (map c.hash_hex log.topics)) [
        | none ↦ none
        | some topics ↦ elim (f.marshal_map (decoded_map f auction token amount params)) [
          | none ↦ none
          | some decoded ↦ some (
            raw_event_of f chain log topics decoded,
            auction_of f chain log auction token amount params,
          )
        ]
      ]
    ]
  ]

  abbrev pub entry_at : Log → List Hash → Option (RawEvent × Auction)
  entry_at log (t0 ∷ t1 ∷ t2 ∷ ts) =
      decoded_entry log (c.bytes_to_address t1) (c.bytes_to_address t2)
  entry_at log ts = none

  abbrev pub add_entry : Option (RawEvent × Auction) → Database → Database
  add_entry none db = db
  add_entry (some (e, a)) db = insert_auction a (insert_raw_event e db)

  unfoldable pub index_logs : List Log → Database → Database
  index_logs [] db = db
  index_logs (l ∷ ls) db = index_logs ls (add_entry (entry_at l l.topics) db)

  abbrev pub index_block : ℕ → BlockHeader → List Log → Database → Database
  index_block n h ls db = insert_block chain n h.hash h.parent_hash (index_logs ls db)

  -- The index of so many blocks of a chain, over what the database holds.
  unfoldable pub index_blocks : Chain → ℕ → ℕ → Database → Database
  index_blocks ch from zero db = db
  index_blocks ch from (suc count) db =
      index_blocks ch (from + 1) count (index_block from (ch.header from) (ch.block_logs from) db)

  unfoldable pub insert_headers : ℕ → List BlockHeader → Database → Database
  insert_headers n [] db = db
  insert_headers n (h ∷ hs) db =
      insert_headers (n + 1) hs (insert_block chain n h.hash h.parent_hash db)

  index_logs-append :
      (xs ys : List Log) (db : Database)
      → index_logs (xs ++ ys) db ≡ index_logs ys (index_logs xs db)
  unfolding index_logs
  index_logs-append [] ys db = refl
  index_logs-append (x ∷ xs) ys db = index_logs-append xs ys (add_entry (entry_at x x.topics) db)

  -- Entries and blocks go into different tables, so their order does not matter.
  add_entry-insert_block :
      (o : Option (RawEvent × Auction)) (n : ℕ) (hash parent : Hash) (db : Database)
      → add_entry o (insert_block chain n hash parent db)
        ≡ insert_block chain n hash parent (add_entry o db)
  unfolding insert_block insert_auction insert_raw_event
  add_entry-insert_block none n hash parent db = refl
  add_entry-insert_block (some (e, a)) n hash parent db = refl

  index_logs-insert_block :
      (ls : List Log) (n : ℕ) (hash parent : Hash) (db : Database)
      → index_logs ls (insert_block chain n hash parent db)
        ≡ insert_block chain n hash parent (index_logs ls db)
  unfolding index_logs
  index_logs-insert_block [] n hash parent db = refl
  index_logs-insert_block (l ∷ ls) n hash parent db =
      ap (index_logs ls) (add_entry-insert_block (entry_at l l.topics) n hash parent db)
      ∙ index_logs-insert_block ls n hash parent (add_entry (entry_at l l.topics) db)

  -- A batch stores the entries of all of its blocks and then the blocks; that is the index of its
  -- blocks one by one.
  pub insert_headers-index_logs :
      (ch : Chain) (count from : ℕ) (db : Database)
      → insert_headers from (headers_from ch from count) (index_logs (logs_from ch from count) db)
        ≡ index_blocks ch from count db
  unfolding insert_headers headers_from logs_from index_blocks
  insert_headers-index_logs ch zero from db = unfold index_logs in refl
  insert_headers-index_logs ch (suc count) from db =
      ap (insert_headers (from + 1) (headers_from ch (from + 1) count)) (
        ap (insert_block chain from (ch.header from).hash (ch.header from).parent_hash)
          (index_logs-append (ch.block_logs from) (logs_from ch (from + 1) count) db)
        ∙ sym (
            index_logs-insert_block (logs_from ch (from + 1) count) from (ch.header from).hash
              (ch.header from).parent_hash (index_logs (ch.block_logs from) db)))
      ∙ insert_headers-index_logs ch count (from + 1)
          (index_block from (ch.header from) (ch.block_logs from) db)

  -- The index of blocks in a row is the index of the first ones and then of the others.
  pub index_blocks-add :
      (ch : Chain) (m n from from' total : ℕ) (db : Database)
      → from + m ≡ from'
      → m + n ≡ total
      → index_blocks ch from' n (index_blocks ch from m db) ≡ index_blocks ch from total db
  unfolding index_blocks
  index_blocks-add ch zero n from from' total db e s =
      let e' : from' ≡ from = omega arith in let s' : n ≡ total = omega arith in rw (e', s') refl
  index_blocks-add ch (suc m) n from from' zero db e s = absurd (omega arith)
  index_blocks-add ch (suc m) n from from' (suc total) db e s =
      index_blocks-add ch m n (from + 1) from' total
        (index_block from (ch.header from) (ch.block_logs from) db) (omega arith) (omega arith)

  tables-add_entry :
      (o : Option (RawEvent × Auction)) (db : Database)
      → add_entry o (tables db) ≡ tables (add_entry o db)
  unfolding insert_auction insert_raw_event
  tables-add_entry none db = refl
  tables-add_entry (some (e, a)) db = refl

  tables-index_logs :
      (ls : List Log) (db : Database) → index_logs ls (tables db) ≡ tables (index_logs ls db)
  unfolding index_logs
  tables-index_logs [] db = refl
  tables-index_logs (l ∷ ls) db =
      ap (index_logs ls) (tables-add_entry (entry_at l l.topics) db)
      ∙ tables-index_logs ls (add_entry (entry_at l l.topics) db)

  tables-insert_block :
      (n : ℕ) (h : BlockHeader) (db : Database)
      → insert_block chain n h.hash h.parent_hash (tables db)
        ≡ tables (insert_block chain n h.hash h.parent_hash db)
  unfolding insert_block
  tables-insert_block n h db = refl

  -- The index does not regard the cursors.
  pub tables-index_blocks :
      (ch : Chain) (count from : ℕ) (db : Database)
      → index_blocks ch from count (tables db) ≡ tables (index_blocks ch from count db)
  unfolding index_blocks
  tables-index_blocks ch zero from db = refl
  tables-index_blocks ch (suc count) from db =
      ap
        (λ d.
          index_blocks ch (from + 1) count
            (insert_block chain from (ch.header from).hash (ch.header from).parent_hash d))
        (tables-index_logs (ch.block_logs from) db)
      ∙ ap (index_blocks ch (from + 1) count)
          (tables-insert_block from (ch.header from) (index_logs (ch.block_logs from) db))
      ∙ tables-index_blocks ch count (from + 1)
          (index_block from (ch.header from) (ch.block_logs from) db)

  -- What is indexed over an index is the index of all of the blocks.
  pub index_blocks_after :
      (ch : Chain) (base m n : ℕ) (before db db' : Database)
      → base ≤ m
      → m ≤ n
      → tables db ≡ tables (index_blocks ch (base + 1) (m - base) before)
      → tables db' ≡ tables (index_blocks ch (m + 1) (n - m) db)
      → tables db' ≡ tables (index_blocks ch (base + 1) (n - base) before)
  index_blocks_after ch base m n before db db' low le so_far e =
      e
      ∙ sym (tables-index_blocks ch (n - m) (m + 1) db)
      ∙ ap (index_blocks ch (m + 1) (n - m)) so_far
      ∙ tables-index_blocks ch (n - m) (m + 1) (index_blocks ch (base + 1) (m - base) before)
      ∙ ap tables (
          index_blocks-add ch (m - base) (n - m) (base + 1) (m + 1) (n - base) before (omega arith)
            (omega arith))
