-- ===== src/Store/Inserts.antt =====
-- What can be read of the blocks after a row for a new block goes in.
use cca_go_indexer.Base.{
  ℕ, ◌+◌, ◌<◌, ◌≤◌, ◌≡◌, refl, ap, ◌∙◌, ◌≢◌, none, List, [], ◌∷◌, arith, All, find,
  find-insert_new_self, find-insert_new_other, insert_unless,
}
use cca_go_indexer.Store.Blocks.{is_block, insert_block, block_hash, scan_hash}
use cca_go_indexer.Store.Rows.{UpTo, BlocksUpTo}
use cca_go_indexer.Types.{Codec, Hash}
use cca_go_indexer.World.Database.{Database, BlockRow}

-- No row is there for the blocks from `n` on.
abbrev pub IsFree : ℕ → ℕ → Database → Type 0
IsFree chain n db = (k : ℕ) → n ≤ k → find (is_block chain k) db.blocks ≡ none

find-above :
    (chain n k : ℕ)
    → n < k
    → (t : List BlockRow) → All (λ r. UpTo chain n r.chain_id r.block_number) t
    → find (is_block chain k) t ≡ none
find-above chain n k h [] p = refl
find-above chain n k h (r ∷ t) p = ground (arith, find-above chain n k h t p.1)

pub BlocksUpTo-IsFree :
    (chain n : ℕ) (db : Database) → BlocksUpTo chain n db → IsFree chain (n + 1) db
BlocksUpTo-IsFree chain n db p k h = find-above chain n k (omega arith) db.blocks p

module _ ⦃c : Codec⦄ (chain n : ℕ) (hash parent : Hash) (db : Database) where
  row : BlockRow
  row = record {
    chain_id = chain;
    block_number = n;
    block_hash = c.hash_hex hash;
    parent_hash = c.hash_hex parent;
  }

  pub block_hash-insert_block :
      find (is_block chain n) db.blocks ≡ none
      → block_hash chain n (insert_block chain n hash parent db) ≡ hash
  unfolding block_hash insert_block row
  block_hash-insert_block free =
      ap scan_hash (find-insert_new_self (is_block chain n) row (ground arith) db.blocks free)
      ∙ c.hex_to_hash_hex hash

  pub find-insert_block_ne :
      (k : ℕ)
      → k ≢ n
      → find (is_block chain k) (insert_block chain n hash parent db).blocks
        ≡ find (is_block chain k) db.blocks
  unfolding insert_block row
  find-insert_block_ne k h =
      find-insert_new_other (is_block chain k) (is_block chain n) row (ground arith) db.blocks

  pub block_hash-insert_block_ne :
      (k : ℕ)
      → k ≢ n
      → block_hash chain k (insert_block chain n hash parent db) ≡ block_hash chain k db
  unfolding block_hash
  block_hash-insert_block_ne k h = ap scan_hash (find-insert_block_ne k h)

  pub BlocksUpTo-insert_block :
      (to : ℕ)
      → n ≤ to
      → BlocksUpTo chain to db
      → find (is_block chain n) db.blocks ≡ none
      → BlocksUpTo chain to (insert_block chain n hash parent db)
  unfolding insert_block
  BlocksUpTo-insert_block to h p free = rw (free, insert_unless) ((λ _. h), p)

  pub IsFree-insert_block :
      IsFree chain n db → IsFree chain (n + 1) (insert_block chain n hash parent db)
  IsFree-insert_block free k h = find-insert_block_ne k (omega arith) ∙ free k (omega arith)
