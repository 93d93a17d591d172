-- ===== src/Indexer/Recovery.antt =====
-- That a round goes back to the last shared block where the node has dropped the loop's
-- (`ChainIndexer.Run` in internal/indexer/indexer.go).
use cca_go_indexer.Base.{
  ap, ◌∙◌, ℕ, suc, ◌+◌, ◌-◌, ◌<◌, ◌≤◌, ◌≡◌, refl, ◌≢◌, sym, true, false, List, arith, ltb, ◌==◌,
  ne→==,
}
use mathlib.Core.Path.{subst}
use cca_go_indexer.Indexer.{IndexerConfig, Loop, attempt, recover, round, check_done}
use cca_go_indexer.Indexer.Commits.{Succeeds, and_then-Succeeds, attempt-Succeeds}
use cca_go_indexer.Indexer.Progress.{above_guard}
use cca_go_indexer.Registry.{HandlerMap}
use cca_go_indexer.Reorg.{detect_reorg, handle_reorg, max_reorg_depth}
use cca_go_indexer.Reorg.Unshared.{restart_runs}
use cca_go_indexer.World.Database.{Database}
use cca_go_indexer.Base.Effect.{ok}
use cca_go_indexer.Reorg.Finds.{IsLastShared, handle_reorg-ok}
use cca_go_indexer.Store.Blocks.{block_hash}
use cca_go_indexer.Types.{BlockHeader, Codec, Log, zero_hash}
use cca_go_indexer.World.Calls.{
  Env, World, FilterQuery, query, tick, block_number, header_by_number,
}
use cca_go_indexer.World.Errors.{detect_reorg_at}
use cca_go_indexer.World.Healthy.{IsHealthy}

module _ ⦃c : Codec⦄ (env : Env) (cfg : IndexerConfig) (registry : HandlerMap) (head : ℕ)
    (header : ℕ → BlockHeader) (logs : FilterQuery → List Log)
    (healthy : IsHealthy env head header logs) where
  detect-Differs :
      (n : ℕ) (w : World)
      → 0 < n
      → block_hash cfg.chain_id n w.db ≢ zero_hash
      → block_hash cfg.chain_id n w.db ≢ (header n).hash
      → Succeeds (λ b w'. (b ≡ true) × (w'.db ≡ w.db)) (detect_reorg env cfg.chain_id n w)
  unfolding detect_reorg query header_by_number
  detect-Differs n w h stored other =
      let above : (n == 0) ≡ false = ground arith in
      rw
        (
          above,
          healthy.statements w.now,
          ne→== _ _ stored,
          healthy.header_answers (suc w.now) n,
          ne→== _ _ other,
        )
        (refl, refl)

  -- Over a database like this one a reorganisation at the block is handled, and goes back to `a`.
  abbrev pub GoesBack : ℕ → ℕ → Database → Type 0
  GoesBack b a db =
      (w : World) → w.db ≡ db → (w' : World) × (handle_reorg env cfg.chain_id b w ≡ (ok a, w'))

  -- It does so to the last shared block, if that is near, and otherwise, below the block 128, to 0.
  pub shared-GoesBack :
      (b a : ℕ) (db : Database)
      → a < b
      → b < a + max_reorg_depth
      → IsLastShared env cfg.chain_id head header logs healthy b a db
      → GoesBack b a db
  shared-GoesBack b a db h near last w same =
      let (w', done, _) =
        handle_reorg-ok env cfg.chain_id head header logs healthy b a w h near
          (subst (IsLastShared env cfg.chain_id head header logs healthy b a) (sym same) last) in
      (w', done)

  pub unshared-GoesBack :
      (b : ℕ) (db : Database)
      → b < max_reorg_depth
      → ((n : ℕ) → n < b → block_hash cfg.chain_id n db ≢ (header n).hash)
      → GoesBack b 0 db
  unshared-GoesBack b db below none w same =
      let (w', done, _) =
        restart_runs env cfg.chain_id head header logs healthy b w below
          (λ n h _ e. none n h (ap (block_hash cfg.chain_id n) (sym same) ∙ e)) in
      (w', done)

  recover-Succeeds :
      (l : Loop) (a : ℕ) (w : World)
      → GoesBack l.cursor a w.db
      → Succeeds
          (λ k _. k ≡ record { cursor = a; consecutive_errors = 0 })
          (recover env cfg registry l w)
  unfolding recover
  recover-Succeeds l a w back = let (w', done) = back w refl in rw done refl

  -- Where every call succeeds and the chain stands still, a round at a stored block that the chain has
  -- not goes back to the block that the reorganisation is answered with.
  pub round-Recovers :
      (l : Loop) (a : ℕ) (w : World)
      → cfg.confirmations ≤ head
      → 0 < l.cursor
      → l.cursor < head - cfg.confirmations
      → block_hash cfg.chain_id l.cursor w.db ≢ zero_hash
      → block_hash cfg.chain_id l.cursor w.db ≢ (header l.cursor).hash
      → GoesBack l.cursor a w.db
      → Succeeds
          (λ k _. k ≡ record { cursor = a; consecutive_errors = 0 })
          (round env cfg registry l w)
  unfolding round check_done block_number
  round-Recovers l a w confirmed pos below stored other back =
      rw
        (
          healthy.running w.now,
          healthy.head_answers (suc w.now),
          deep,
          above_guard env cfg registry head header logs healthy l.cursor (head - cfg.confirmations)
              below,
        )
        (and_then-Succeeds (λ b w'. (b ≡ true) × (w'.db ≡ w.db)) _
          (attempt env l (detect_reorg_at l.cursor) (detect_reorg env cfg.chain_id l.cursor)
            (tick (tick w)))
          _
          (attempt-Succeeds env cfg registry head header logs healthy _ l (detect_reorg_at l.cursor)
            (detect_reorg env cfg.chain_id l.cursor (tick (tick w)))
            (detect-Differs l.cursor (tick (tick w)) pos stored other))
          (λ b w' (found, same).
            rw found (recover-Succeeds l a w' (subst (GoesBack l.cursor a) (sym same) back))))
    where
      deep : ltb head cfg.confirmations ≡ false
      deep = ground arith
