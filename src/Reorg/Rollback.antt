-- ===== src/Reorg/Rollback.antt =====
-- What a rollback leaves in the database (internal/indexer/reorg.go).
use cca_go_indexer.Base.{
  ℕ, ◌+◌, ◌-◌, ◌<◌, ◌≤◌, ◌≡◌, refl, ◌≢◌, ◌⊎◌, inl, inr, arith, leb, find, Bool-cases, ap, ◌∙◌, some,
}
use cca_go_indexer.Base.Effect.{Ends, Ends-and_then, ◌>>◌, pure}
use cca_go_indexer.Reorg.{find_ancestor, rollback, handle_reorg, max_reorg_depth}
use cca_go_indexer.Reorg.Search.{Agrees, Differs, IsAncestor, find_ancestor-Ends}
use cca_go_indexer.Store.Auctions.{delete_auctions, has_address}
use cca_go_indexer.Store.Blocks.{
  block_hash, scan_hash, is_block, delete_blocks, find-delete_blocks_below,
  find-delete_blocks_above, find-delete_blocks_other,
}
use cca_go_indexer.Store.Cursors.{
  upsert_cursor, stored_cursor, stored_cursor-upsert_cursor, stored_cursor-upsert_cursor_other,
}
use cca_go_indexer.Store.RawEvents.{delete_raw_events, same_event}
use cca_go_indexer.Types.{Codec, zero_hash}
use cca_go_indexer.Text.{Text}
use cca_go_indexer.Store.Rows.{
  RowsUpTo, Kept, EventsUpTo-delete_raw_events, AuctionsUpTo-delete_auctions,
  BlocksUpTo-delete_blocks, find-delete_raw_events, find-delete_auctions,
}
use cca_go_indexer.World.Calls.{Env, World, exec, query, tick, wrap, wrap-Ends}
use cca_go_indexer.World.Errors.{rollback_transaction}
use cca_go_indexer.World.Database.{Database, AuctionRow}
use cca_go_indexer.World.Tx.{NoLostCommit, with_tx, with_tx_atomic}

module _ ⦃c : Codec⦄ (chain : ℕ) where
  -- The rows above the ancestor are gone, and the cursor is at the ancestor.
  unfoldable pub rolled_back : ℕ → Database → Database
  rolled_back a db = upsert_cursor chain a (block_hash chain a db) (
      delete_blocks chain (a + 1)
        (delete_auctions chain (a + 1) (delete_raw_events chain (a + 1) db)))

  pub deletions-keep_hash :
      (a : ℕ) (db : Database)
      → block_hash chain a (
          delete_blocks chain
            (a + 1)
            (delete_auctions chain (a + 1) (delete_raw_events chain (a + 1) db)))
        ≡ block_hash chain a db
  unfolding block_hash delete_auctions delete_raw_events
  deletions-keep_hash a db = ap scan_hash (
      find-delete_blocks_below chain a (a + 1)
        (delete_auctions chain (a + 1) (delete_raw_events chain (a + 1) db)) (omega arith))

  -- What can be read after a rollback to the block `a`.
  pub record IsRolledBack (a : ℕ) (db db' : Database) : Type 0 where
    pub rows : RowsUpTo chain a db'
    pub hashes : (n : ℕ) → n ≤ a → block_hash chain n db' ≡ block_hash chain n db
    pub no_hashes : (n : ℕ) → a < n → block_hash chain n db' ≡ zero_hash
    pub cursor : stored_cursor chain db' ≡ (a, block_hash chain a db)
    pub events :
        (key_chain n : ℕ) (tx : Text) (index : ℕ)
        → Kept chain a key_chain n
        → find (same_event key_chain n tx index) db'.raw_events
          ≡ find (same_event key_chain n tx index) db.raw_events
    pub auctions :
        (key_chain : ℕ) (address : Text) (r : AuctionRow)
        → Kept chain a r.chain_id r.block_number
        → find (has_address key_chain address) db.auctions ≡ some r
        → find (has_address key_chain address) db'.auctions ≡ some r
    pub other_hashes :
        (other n : ℕ) → other ≢ chain → block_hash other n db' ≡ block_hash other n db
    pub other_cursors :
        (other : ℕ) → other ≢ chain → stored_cursor other db' ≡ stored_cursor other db

  rolled_back-RowsUpTo : (a : ℕ) (db : Database) → RowsUpTo chain a (rolled_back a db)
  unfolding rolled_back upsert_cursor delete_blocks delete_auctions delete_raw_events
  rolled_back-RowsUpTo a db = record {
    events = EventsUpTo-delete_raw_events chain a db;
    auctions = AuctionsUpTo-delete_auctions chain a db;
    blocks = BlocksUpTo-delete_blocks chain a db;
  }

  find-rolled_back :
      (key_chain n a : ℕ) (db : Database)
      → find (is_block key_chain n) (rolled_back a db).blocks
        ≡ find (is_block key_chain n) (delete_blocks chain (a + 1) db).blocks
  unfolding rolled_back upsert_cursor delete_blocks delete_auctions delete_raw_events
  find-rolled_back key_chain n a db = refl

  rolled_back_events :
      (key_chain n a : ℕ) (db : Database) (tx : Text) (index : ℕ)
      → find (same_event key_chain n tx index) (rolled_back a db).raw_events
        ≡ find (same_event key_chain n tx index) (delete_raw_events chain (a + 1) db).raw_events
  unfolding rolled_back upsert_cursor delete_blocks delete_auctions delete_raw_events
  rolled_back_events key_chain n a db tx index = refl

  rolled_back_auctions :
      (a : ℕ) (db : Database)
      → (rolled_back a db).auctions ≡ (delete_auctions chain (a + 1) db).auctions
  unfolding rolled_back upsert_cursor delete_blocks delete_auctions delete_raw_events
  rolled_back_auctions a db = refl

  other_cursor :
      (a : ℕ) (db : Database) (other : ℕ)
      → other ≢ chain
      → stored_cursor other (rolled_back a db) ≡ stored_cursor other db
  unfolding rolled_back stored_cursor delete_blocks delete_auctions delete_raw_events
  other_cursor a db other h =
      stored_cursor-upsert_cursor_other other chain a (block_hash chain a db) _ h

  rolled_back-IsRolledBack : (a : ℕ) (db : Database) → IsRolledBack a db (rolled_back a db)
  unfolding block_hash
  rolled_back-IsRolledBack a db = record {
    rows = rolled_back-RowsUpTo a db;
    hashes = λ n h.
        ap scan_hash (
          find-rolled_back chain n a db
          ∙ find-delete_blocks_below chain n (a + 1) db (omega arith));
    no_hashes = λ n h.
        ap scan_hash (
          find-rolled_back chain n a db
          ∙ find-delete_blocks_above chain n (a + 1) db (omega arith));
    cursor = unfold rolled_back in stored_cursor-upsert_cursor chain a (block_hash chain a db) _;
    events = λ key_chain n tx index kept.
        rolled_back_events key_chain n a db tx index
        ∙ find-delete_raw_events chain a db key_chain n kept tx index;
    auctions = λ key_chain address r kept e.
        rw (rolled_back_auctions a db) (find-delete_auctions chain a db key_chain address r kept e);
    other_hashes = λ other n h.
        ap scan_hash
          (find-rolled_back other n a db ∙ find-delete_blocks_other chain other n (a + 1) db h);
    other_cursors = other_cursor a db;
  }

  module _ (env : Env) where
    -- Without a failure all five statements have their effect.
    rollback-Ends :
        (a : ℕ) (w : World)
        → Ends (λ _ w'. w'.db ≡ rolled_back a w.db) (λ _ _. Unit {0}) (rollback env chain a w)
    unfolding rollback exec query rolled_back
    rollback-Ends a w = ground (arith, deletions-keep_hash a w.db)

    -- What a reorganisation at the block `b` is answered with: the highest block below that the node
    -- confirmed, or the genesis block, less than 128 blocks down, and the rows above it gone.
    pub record IsRecovered (b a : ℕ) (db db' : Database) : Type 0 where
      pub at_most : a ≤ b
      pub near : b < a + max_reorg_depth
      pub below : 0 < b → a < b
      pub all_differ : (n : ℕ) → a < n → n < b → Differs env chain db n
      pub stopped : (a ≡ 0) ⊎ Agrees env chain db a
      pub rolled : IsRolledBack a db db'
      pub exact : db' ≡ rolled_back a db

    commit_rollback :
        (b a : ℕ) (db : Database) (w : World)
        → NoLostCommit env
        → w.db ≡ db
        → b < a + max_reorg_depth
        → IsAncestor env chain max_reorg_depth b a db
        → Ends
            (λ a' w'. IsRecovered b a' db w'.db)
            (λ _ w'. w'.db ≡ db)
            ((do wrap rollback_transaction (with_tx env (rollback env chain a)); pure a) w)
    commit_rollback b a db w kept same near found =
        Ends-and_then (λ _ w'. w'.db ≡ rolled_back a db) _ _
          (wrap rollback_transaction (with_tx env (rollback env chain a)) w) (λ _. pure a)
          (wrap-Ends rollback_transaction _ (λ w'. w'.db ≡ db)
            (with_tx env (rollback env chain a) w)
            (rw (← same) (
              with_tx_atomic env (λ _ db'. db' ≡ rolled_back a w.db) (rollback env chain a) w kept
                (rollback-Ends a (tick w)))))
          (λ _ w' e. rw e (record {
            at_most = found.at_most;
            near = near;
            below = λ h. found.below (omega arith) h;
            all_differ = found.all_differ;
            stopped = elim (found.stopped) [
              | inl genesis ↦ inl genesis
              | inr (inl far) ↦ absurd (omega arith)
              | inr (inr agrees) ↦ inr agrees
            ];
            rolled = rolled_back-IsRolledBack a db;
            exact = refl;
          }))

    -- A reorganisation that is handled without an error leaves the chain's rows up to the highest
    -- block below it that the node confirmed, or up to the genesis block, and the cursor there; every
    -- block between was answered with another hash, and the block is less than 128 blocks down. The
    -- rows up to that block, and all rows of other chains, are as they were. With an error nothing
    -- has changed, where no commit is lost.
    pub handle_reorg-IsRecovered :
        (b : ℕ) (w : World)
        → NoLostCommit env
        → Ends
            (λ a w'. IsRecovered b a w.db w'.db)
            (λ _ w'. w'.db ≡ w.db)
            (handle_reorg env chain b w)
    unfolding handle_reorg
    handle_reorg-IsRecovered b w kept =
        Ends-and_then (λ a w'. (w'.db ≡ w.db) × IsAncestor env chain max_reorg_depth b a w.db) _ _
          (find_ancestor env chain max_reorg_depth b w) _
          (find_ancestor-Ends env chain max_reorg_depth b w)
          (λ a w' found. elim (Bool-cases (leb max_reorg_depth (b - a))) [
            | inl deep ↦ rw deep found.0
            | inr near ↦
                rw near (
                  commit_rollback b a w.db w' kept found.0 (ground (arith, found.1.at_most))
                    found.1)
          ])
