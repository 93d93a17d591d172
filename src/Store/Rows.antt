-- ===== src/Store/Rows.antt =====
-- Conditions on the rows of a chain that the tables share, and what the three deletions of a
-- rollback leave.
use cca_go_indexer.Base.{
  ℕ, ◌+◌, ◌≤◌, ◌≡◌, ◌≢◌, ◌⊎◌, true, false, All, All-map, arith, find, All-delete_where_rest,
  find-delete_where_kept, find-delete_where-some, some,
}
use cca_go_indexer.Store.Auctions
use cca_go_indexer.Store.Auctions.{delete_auctions, has_address}
use cca_go_indexer.Store.Blocks
use cca_go_indexer.Store.Blocks.{delete_blocks}
use cca_go_indexer.Store.RawEvents
use cca_go_indexer.Store.RawEvents.{delete_raw_events, same_event}
use cca_go_indexer.Text.{Text}
use cca_go_indexer.World.Database.{Database, RawEventRow, AuctionRow, BlockRow}

-- A row of the chain lies at the block or below.
abbrev pub UpTo : ℕ → ℕ → ℕ → ℕ → Type 0
UpTo chain n row_chain row_block = row_chain ≡ chain → row_block ≤ n

abbrev pub EventsUpTo : ℕ → ℕ → Database → Type 0
EventsUpTo chain n db = All (λ r. UpTo chain n r.chain_id r.block_number) db.raw_events

abbrev pub AuctionsUpTo : ℕ → ℕ → Database → Type 0
AuctionsUpTo chain n db = All (λ r. UpTo chain n r.chain_id r.block_number) db.auctions

abbrev pub BlocksUpTo : ℕ → ℕ → Database → Type 0
BlocksUpTo chain n db = All (λ r. UpTo chain n r.chain_id r.block_number) db.blocks

-- No row of the chain is above the block, in any table.
pub record RowsUpTo (chain n : ℕ) (db : Database) : Type 0 where
  pub events : EventsUpTo chain n db
  pub auctions : AuctionsUpTo chain n db
  pub blocks : BlocksUpTo chain n db

UpTo-weaken : (chain m n : ℕ) → m ≤ n → (a b : ℕ) → UpTo chain m a b → UpTo chain n a b
UpTo-weaken chain m n h a b u = λ e. omega (arith, u e)

pub RowsUpTo-weaken :
    (chain m n : ℕ) (db : Database) → m ≤ n → RowsUpTo chain m db → RowsUpTo chain n db
RowsUpTo-weaken chain m n db h p = record {
  events =
      All-map _ _ (λ r. UpTo-weaken chain m n h r.chain_id r.block_number) db.raw_events p.events;
  auctions =
      All-map _ _ (λ r. UpTo-weaken chain m n h r.chain_id r.block_number) db.auctions p.auctions;
  blocks = All-map _ _ (λ r. UpTo-weaken chain m n h r.chain_id r.block_number) db.blocks p.blocks;
}

module _ (chain n : ℕ) (db : Database) where
  event_rest :
      (r : RawEventRow)
      → RawEvents.from_block chain (n + 1) r ≡ false
      → UpTo chain n r.chain_id r.block_number
  event_rest r h = λ e. ground arith

  auction_rest :
      (r : AuctionRow)
      → Auctions.from_block chain (n + 1) r ≡ false
      → UpTo chain n r.chain_id r.block_number
  auction_rest r h = λ e. ground arith

  block_rest :
      (r : BlockRow)
      → Blocks.from_block chain (n + 1) r ≡ false
      → UpTo chain n r.chain_id r.block_number
  block_rest r h = λ e. ground arith

  pub EventsUpTo-delete_raw_events : EventsUpTo chain n (delete_raw_events chain (n + 1) db)
  unfolding delete_raw_events
  EventsUpTo-delete_raw_events =
      All-delete_where_rest _ (RawEvents.from_block chain (n + 1)) event_rest db.raw_events

  pub AuctionsUpTo-delete_auctions : AuctionsUpTo chain n (delete_auctions chain (n + 1) db)
  unfolding delete_auctions
  AuctionsUpTo-delete_auctions =
      All-delete_where_rest _ (Auctions.from_block chain (n + 1)) auction_rest db.auctions

  pub BlocksUpTo-delete_blocks : BlocksUpTo chain n (delete_blocks chain (n + 1) db)
  unfolding delete_blocks
  BlocksUpTo-delete_blocks =
      All-delete_where_rest _ (Blocks.from_block chain (n + 1)) block_rest db.blocks

-- The key of a row is of another chain, or not above the block.
abbrev pub Kept : ℕ → ℕ → ℕ → ℕ → Type 0
Kept chain n key_chain key_block = (key_chain ≢ chain) ⊎ (key_block ≤ n)

module _ (chain n : ℕ) (db : Database) (key_chain key_block : ℕ)
    (kept : Kept chain n key_chain key_block) where
  kept_event :
      (tx : Text) (index : ℕ) (r : RawEventRow)
      → same_event key_chain key_block tx index r ≡ true
      → RawEvents.from_block chain (n + 1) r ≡ false
  kept_event tx index r h = ground arith

  -- Rows of the other chains, and those not above the block, are found as before.
  pub find-delete_raw_events :
      (tx : Text) (index : ℕ)
      → find
          (same_event key_chain key_block tx index)
          (delete_raw_events chain (n + 1) db).raw_events
        ≡ find (same_event key_chain key_block tx index) db.raw_events
  unfolding delete_raw_events
  find-delete_raw_events tx index =
      find-delete_where_kept (same_event key_chain key_block tx index)
        (RawEvents.from_block chain (n + 1)) (kept_event tx index) db.raw_events

-- An auction's row of another chain, or not above the block, is found as before.
pub find-delete_auctions :
    (chain n : ℕ) (db : Database) (key_chain : ℕ) (address : Text) (r : AuctionRow)
    → Kept chain n r.chain_id r.block_number
    → find (has_address key_chain address) db.auctions ≡ some r
    → find (has_address key_chain address) (delete_auctions chain (n + 1) db).auctions ≡ some r
unfolding delete_auctions
find-delete_auctions chain n db key_chain address r kept =
    find-delete_where-some (has_address key_chain address) (Auctions.from_block chain (n + 1)) r
      (ground arith) db.auctions
