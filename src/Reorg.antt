-- ===== src/Reorg.antt =====
-- internal/indexer/reorg.go: whether the chain has dropped the last indexed block, the search for
-- the block that the chain and the store still share, and the rollback to it.
pub mod Search
pub mod Rollback
pub mod Detect
pub mod Finds
pub mod Unshared
use cca_go_indexer.Base.{ℕ, zero, suc, ◌+◌, ◌-◌, Bool, true, false, not, ◌==◌, leb, if◌then◌else◌}
use cca_go_indexer.Base.Effect.{pure, raise, ◌>>◌, ◌>>=◌}
use cca_go_indexer.Store.Auctions
use cca_go_indexer.Store.Blocks
use cca_go_indexer.Store.Cursors
use cca_go_indexer.Store.RawEvents
use cca_go_indexer.Types.{Codec, zero_hash}
use cca_go_indexer.World.Calls.{Env, Action, wrap, header_by_number}
use cca_go_indexer.World.Errors.{
  reorg_too_deep, get_stored_hash, get_chain_hash, get_chain_header, delete_raw_events,
  delete_auctions, delete_blocks, get_ancestor_hash, update_cursor, rollback_transaction,
}
use cca_go_indexer.World.Tx.{with_tx}

abbrev pub max_reorg_depth : ℕ
max_reorg_depth = 128

module _ ⦃c : Codec⦄ (env : Env) (chain : ℕ) where
  -- `detectReorg`
  unfoldable pub detect_reorg : ℕ → Action Bool
  detect_reorg n = if n == 0 then pure false else (do
    stored ← wrap (get_stored_hash n) (Blocks.get_hash env chain n)
    if stored == zero_hash then pure false else (do
      header ← wrap (get_chain_hash n) (header_by_number env n)
      pure (not (stored == header.hash))))

  -- The loop of `handleReorg`, on the rounds that are left and the block that was reached.
  pub find_ancestor : ℕ → ℕ → Action ℕ
  find_ancestor zero n = pure n
  find_ancestor (suc rounds) zero = pure zero
  find_ancestor (suc rounds) (suc n) = do
    stored ← wrap (get_stored_hash n) (Blocks.get_hash env chain n)
    header ← wrap (get_chain_header n) (header_by_number env n)
    let rest = find_ancestor rounds n
    if stored == header.hash then pure n else rest

  -- The function that `handleReorg` gives to `WithTx`.
  pub rollback : ℕ → Action (Unit {0})
  rollback ancestor = do
    wrap delete_raw_events (RawEvents.delete_from_block env chain (ancestor + 1))
    wrap delete_auctions (Auctions.delete_from_block env chain (ancestor + 1))
    wrap delete_blocks (Blocks.delete_from env chain (ancestor + 1))
    hash ← wrap get_ancestor_hash (Blocks.get_hash env chain ancestor)
    wrap update_cursor (Cursors.save env chain ancestor hash)

  -- `handleReorg`; the search only goes down, so the difference of blocks does not wrap.
  pub handle_reorg : ℕ → Action ℕ
  unfolding find_ancestor rollback
  handle_reorg reorg_block = do
    ancestor ← find_ancestor max_reorg_depth reorg_block
    if leb max_reorg_depth (reorg_block - ancestor)
        then raise reorg_too_deep
        else (do wrap rollback_transaction (with_tx env (rollback ancestor)); pure ancestor)
