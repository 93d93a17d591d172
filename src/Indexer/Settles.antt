-- ===== src/Indexer/Settles.antt =====
-- That an indexer whose node has gone over to another chain comes to that chain's index
-- (`ChainIndexer.Run` in internal/indexer/indexer.go).
use cca_go_indexer.Base.{
  ℕ, suc, ◌+◌, ◌-◌, ◌<◌, ◌≤◌, ◌≡◌, ◌⊎◌, ◌≢◌, ◌==◌, ap, ◌∙◌, sym, inl, inr, arith, Bool-cases, ltb,
}
use mathlib.Core.Path.{subst}
use cca_go_indexer.AuctionCreated.{Formats}
use cca_go_indexer.Base.Effect.{Result, ok, err, Ends}
use cca_go_indexer.Indexer.{IndexerConfig, Loop, Exit, round, next_round, go_on, run_rounds}
use cca_go_indexer.Indexer.Commits.{Succeeds}
use cca_go_indexer.Indexer.Histories.{History, History-Holds, in_loop, base}
use cca_go_indexer.Indexer.Index.{Chain}
use cca_go_indexer.Indexer.Recovery.{GoesBack, shared-GoesBack, unshared-GoesBack, round-Recovers}
use cca_go_indexer.Indexer.Switches.{Chains, IsIndexOf-block_hash, same-Shares, shared-IsIndexOf}
use cca_go_indexer.Indexer.SwitchRounds.{Follows, round-Follows}
use cca_go_indexer.Indexer.Unchanged.{Unchanged}
use cca_go_indexer.Registry.{HandlerMap}
use cca_go_indexer.Reorg.{max_reorg_depth}
use cca_go_indexer.Reorg.Finds.{find-IsLastShared, search-IsLastShared}
use cca_go_indexer.Store.Blocks.{block_hash}
use cca_go_indexer.Store.Cursors.{stored_cursor}
use cca_go_indexer.Store.Rows.{RowsUpTo}
use cca_go_indexer.Types.{Codec, zero_hash}
use cca_go_indexer.World.Calls.{Env, World}
use cca_go_indexer.World.Database.{Database}
use cca_go_indexer.Indexer.Standing.{Standing, IndexOf, IsSettled, run_rounds-IsSettled}

module _ ⦃c : Codec⦄ (f : Formats) (cfg : IndexerConfig) (chains : Chains) (before : Database)
    (rows : RowsUpTo cfg.chain_id 0 before)
    (no_genesis : block_hash cfg.chain_id 0 before ≡ zero_hash) (env : Env) (registry : HandlerMap)
    (node : Standing f cfg chains env registry) where
  -- The node has the block of the index that the loop is at, and so the blocks below.
  shared-IndexOf :
      (k : Chain) (n : ℕ) (db : Database)
      → chains.Possible k
      → IndexOf f cfg chains before rows no_genesis env registry node k n db
      → block_hash cfg.chain_id n db ≡ (node.chain.header n).hash
      → IndexOf f cfg chains before rows no_genesis env registry node node.chain n db
  shared-IndexOf k n db p q same =
      shared-IsIndexOf f cfg chains (base f cfg chains before) before rows k node.chain n db q (
        same-Shares f cfg chains (base f cfg chains before) before rows k node.chain q.from n p
          node.possible
          (λ h.
            sym (
              IsIndexOf-block_hash f cfg chains (base f cfg chains before) before rows k n n db q h
                (omega arith))
            ∙ same))

  -- Where no block is indexed, it is the index of the node's chain as well.
  empty-IndexOf :
      (k : Chain) (n : ℕ) (db : Database)
      → chains.Possible k
      → (q : IndexOf f cfg chains before rows no_genesis env registry node k n db) → ¬ (q.from < n)
      → IndexOf f cfg chains before rows no_genesis env registry node node.chain n db
  empty-IndexOf k n db p q none =
      shared-IsIndexOf f cfg chains (base f cfg chains before) before rows k node.chain n db q (
        same-Shares f cfg chains (base f cfg chains before) before rows k node.chain q.from n p
          node.possible (λ h. absurd (none h)))

  unstored-IndexOf :
      (k : Chain) (n : ℕ) (db : Database)
      → chains.Possible k
      → IndexOf f cfg chains before rows no_genesis env registry node k n db
      → block_hash cfg.chain_id n db ≡ zero_hash
      → IndexOf f cfg chains before rows no_genesis env registry node node.chain n db
  unstored-IndexOf k n db p q nothing = empty-IndexOf k n db p q (λ h. chains.hashed k p n (
      sym (
        IsIndexOf-block_hash f cfg chains (base f cfg chains before) before rows k n n db q h
          (omega arith))
      ∙ nothing))

  -- There is a block to go back to: the block 0, or a stored one less than 128 below, or the block
  -- itself, that is the node's.
  abbrev pub IsReachable : ℕ → Database → Type 0
  IsReachable n db =
      (n < max_reorg_depth)
      ⊎ ((s : ℕ) × (s ≤ n)
          × (n < s + max_reorg_depth)
          × (block_hash cfg.chain_id s db ≡ (node.chain.header s).hash))

  reachable-GoesBack :
      (n : ℕ) (db : Database)
      → 0 < n
      → block_hash cfg.chain_id n db ≢ (node.chain.header n).hash
      → IsReachable n db
      → (a : ℕ) × (a < n)
        × GoesBack env cfg registry node.head node.chain.header node.logs node.healthy n a db
  reachable-GoesBack n db pos differs (inr (s, le, near, shared)) =
      let other : s ≢ n = λ e.
        differs (subst (λ i. block_hash cfg.chain_id i db ≡ (node.chain.header i).hash) e shared) in
      let (a, above, lower, last) =
        find-IsLastShared env cfg.chain_id node.head node.chain.header node.logs node.healthy n s db
          (omega arith) shared in
      (
        a,
        lower,
        shared-GoesBack env cfg registry node.head node.chain.header node.logs node.healthy n a db
            lower (omega arith) last,
      )
  reachable-GoesBack n db pos differs (inl small) =
      elim (search-IsLastShared env cfg.chain_id node.head node.chain.header node.logs node.healthy
        n db) [
          | inl (a, lower, last) ↦ (
            a,
            lower,
            shared-GoesBack env cfg registry node.head node.chain.header node.logs node.healthy n a
                db lower (omega arith) last,
          )
          | inr none_below ↦ (
            0,
            pos,
            unshared-GoesBack env cfg registry node.head node.chain.header node.logs node.healthy n
                db small none_below,
          )
        ]

  recovered-IsSettled :
      (n a : ℕ) (l : Loop) (db : Database) (r : Result Exit Loop × World)
      → node.head - cfg.confirmations ≤ n
      → a < node.head - cfg.confirmations
      → Succeeds (λ k _. k ≡ record { cursor = a; consecutive_errors = 0 }) r
      → Ends
          (Follows f cfg chains
            (base f cfg chains before)
            before
            rows
            env
            registry
            node.chain
            node.possible
            node.still
            node.trusted)
          (Unchanged l db)
          r
      → IsSettled f cfg chains before rows no_genesis env registry node
          (go_on (run_rounds env cfg registry n) (next_round env cfg registry r))
  recovered-IsSettled n a l db (ok k, w) h low e p =
      let at : k.cursor ≡ a = ap (λ j. j.cursor) e in
      run_rounds-IsSettled f cfg chains before rows no_genesis env registry node n k w (omega arith)
        p.0 (omega arith)
  recovered-IsSettled n a l db (err x, w) h low never p = absurd never

  -- Wherever a history has come to that began on a database with no row of the chain and no cursor
  -- of it: where a batch has at least one block, from then on every call succeeds, the node stays on
  -- one of the chains, its answers can be trusted, and the handlers take the logs of this chain, where
  -- there are as many blocks as confirmations, the cursor is below the safe head, and it is below the
  -- block 128 or the node's hash of some block less than 128 below it, or its own, is stored, one round
  -- more than there are blocks up to the safe head bring the loop there, with the index of the node's
  -- chain and nothing of another in the tables.
  pub History-IsSettled :
      (fresh : (stored_cursor cfg.chain_id before).0 ≡ 0) (n : ℕ) {l : Loop} {w : World}
      → History f cfg chains before (in_loop l) w
      → l.cursor < node.head - cfg.confirmations
      → IsReachable l.cursor w.db
      → node.head - cfg.confirmations ≤ n
      → IsSettled f cfg chains before rows no_genesis env registry node
          (run_rounds env cfg registry (suc n) l w)
  unfolding run_rounds
  History-IsSettled fresh n {l} {w} h low reachable enough =
      let ((k, p, q), _) = History-Holds f cfg chains before rows fresh h in
      let settled =
        run_rounds-IsSettled f cfg chains before rows no_genesis env registry node (suc n) l w
          (omega arith) in
      let stored = block_hash cfg.chain_id l.cursor w.db in
      elim (Bool-cases (stored == (node.chain.header l.cursor).hash)) [
        | inl same ↦ settled (shared-IndexOf k l.cursor w.db p q (ground arith)) (omega arith)
        | inr other ↦ elim (Bool-cases (stored == zero_hash)) [
          | inl nothing ↦
              settled (unstored-IndexOf k l.cursor w.db p q (ground arith)) (omega arith)
          | inr something ↦ elim (Bool-cases (ltb 0 l.cursor)) [
            | inr zero_block ↦
                settled (empty-IndexOf k l.cursor w.db p q (λ h. ground arith)) (omega arith)
            | inl pos ↦
                let (a, lower, back) =
                  reachable-GoesBack l.cursor w.db (ground arith) (ground arith) reachable in
                recovered-IsSettled n a l w.db (round env cfg registry l w) enough (omega arith)
                  (round-Recovers env cfg registry node.head node.chain.header node.logs
                    node.healthy l a w node.confirmed (ground arith) low (ground arith)
                    (ground arith) back)
                  (round-Follows f cfg chains (base f cfg chains before) before rows env registry
                    node.chain node.possible node.still node.trusted l w (k, p, q))
          ]
        ]
      ]
