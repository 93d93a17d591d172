-- ===== src/Store/Blocks.antt =====
-- `blockRepo` (internal/store/postgres/block.go) over the table `indexed_blocks`, whose primary key
-- is the chain and the block number.
use cca_go_indexer.Base.{
  ℕ, ◌≡◌, ◌≢◌, ◌<◌, ◌≤◌, Bool, true, false, ◌&&◌, Option, none, some, arith, ◌==◌, leb, find,
  insert_new, delete_where, find-delete_where_kept, find-delete_where_gone,
}
use cca_go_indexer.Types.{Hash, zero_hash, Codec}
use cca_go_indexer.World.Calls.{Env, Action, exec, query}
use cca_go_indexer.World.Database.{Database, BlockRow}

-- `chain_id = $1 AND block_number = $2`, the primary key.
abbrev pub is_block : ℕ → ℕ → BlockRow → Bool
is_block chain n r = (r.chain_id == chain) && (r.block_number == n)

-- `chain_id = $1 AND block_number >= $2`
abbrev pub from_block : ℕ → ℕ → BlockRow → Bool
from_block chain n r = (r.chain_id == chain) && leb n r.block_number

unfoldable pub delete_blocks : ℕ → ℕ → Database → Database
delete_blocks chain n db = record db { blocks = delete_where (from_block chain n) db.blocks }

module _ ⦃c : Codec⦄ where
  unfoldable pub insert_block : ℕ → ℕ → Hash → Hash → Database → Database
  insert_block chain n hash parent db = record db {
    blocks =
        insert_new (is_block chain n)
          (record {
            chain_id = chain;
            block_number = n;
            block_hash = c.hash_hex hash;
            parent_hash = c.hash_hex parent;
          })
          db.blocks;
  }

  -- `Scan`, and `pgx.ErrNoRows`
  abbrev pub scan_hash : Option BlockRow → Hash
  scan_hash none = zero_hash
  scan_hash (some r) = c.hex_to_hash r.block_hash

  unfoldable pub block_hash : ℕ → ℕ → Database → Hash
  block_hash chain n db = scan_hash (find (is_block chain n) db.blocks)

  -- `blockRepo.Insert`, `blockRepo.GetHash` and `blockRepo.DeleteFrom`
  abbrev pub insert : Env → ℕ → ℕ → Hash → Hash → Action (Unit {0})
  insert env chain n hash parent = exec env (insert_block chain n hash parent)

  abbrev pub get_hash : Env → ℕ → ℕ → Action Hash
  get_hash env chain n = query env (block_hash chain n)

abbrev pub delete_from : Env → ℕ → ℕ → Action (Unit {0})
delete_from env chain n = exec env (delete_blocks chain n)

module _ (chain : ℕ) where
  is_block-not_from :
      (n k : ℕ) → n < k → (r : BlockRow) → is_block chain n r ≡ true → from_block chain k r ≡ false
  is_block-not_from n k h r e = ground arith

  is_block-from :
      (n k : ℕ) → k ≤ n → (r : BlockRow) → is_block chain n r ≡ true → from_block chain k r ≡ true
  is_block-from n k h r e = ground arith

  -- A deletion keeps the rows below its bound, and removes the others.
  pub find-delete_blocks_below :
      (n k : ℕ) (db : Database)
      → n < k
      → find (is_block chain n) (delete_blocks chain k db).blocks
        ≡ find (is_block chain n) db.blocks
  unfolding delete_blocks
  find-delete_blocks_below n k db h =
      find-delete_where_kept (is_block chain n) (from_block chain k) (is_block-not_from n k h)
        db.blocks

  pub find-delete_blocks_above :
      (n k : ℕ) (db : Database)
      → k ≤ n
      → find (is_block chain n) (delete_blocks chain k db).blocks ≡ none
  unfolding delete_blocks
  find-delete_blocks_above n k db h =
      find-delete_where_gone (is_block chain n) (from_block chain k) (is_block-from n k h) db.blocks

  other_chain :
      (other n k : ℕ)
      → other ≢ chain
      → (r : BlockRow) → is_block other n r ≡ true
      → from_block chain k r ≡ false
  other_chain other n k h r e = ground arith

  pub find-delete_blocks_other :
      (other n k : ℕ) (db : Database)
      → other ≢ chain
      → find (is_block other n) (delete_blocks chain k db).blocks
        ≡ find (is_block other n) db.blocks
  unfolding delete_blocks
  find-delete_blocks_other other n k db h =
      find-delete_where_kept (is_block other n) (from_block chain k) (other_chain other n k h)
        db.blocks
