-- ===== src/Indexer/Detection.antt =====
-- The part of a round of `ChainIndexer.Run` that decides between a rollback and a batch
-- (internal/indexer/indexer.go).
use cca_go_indexer.Base.{
  ℕ, suc, ◌+◌, ◌-◌, ◌<◌, ◌≡◌, refl, ◌∙◌, Bool, arith, leb, ltb, u64, min, if◌then◌else◌,
}
use mathlib.Core.Path.{subst}
use cca_go_indexer.Base.Effect.{Ends, Ends-and_then, Ends-weaken, and_then}
use cca_go_indexer.Indexer.{
  IndexerConfig, Exit, Loop, Round, check_done, attempt, process_batch, recover, round,
}
use cca_go_indexer.Indexer.Invariant.{block_number_reads}
use cca_go_indexer.Indexer.Trusted.{SmallHeads, bigint_size}
use cca_go_indexer.Indexer.Unchanged.{Unchanged, attempt_next, guard_next, check_done-Unchanged}
use cca_go_indexer.Registry.{HandlerMap}
use cca_go_indexer.Reorg.{detect_reorg}
use cca_go_indexer.Reorg.Detect.{Detected, detect_reorg-Detected}
use cca_go_indexer.Types.{Codec}
use cca_go_indexer.World.Calls.{Env, World, block_number}
use cca_go_indexer.World.Database.{Database}
use cca_go_indexer.World.Errors.{get_block_number, detect_reorg_at}

module _ ⦃c : Codec⦄ (env : Env) (cfg : IndexerConfig) (registry : HandlerMap)
    (heads : SmallHeads env) where
  -- What follows the check for a reorganisation.
  abbrev pub chosen : Loop → ℕ → Bool → Round Loop
  chosen l safe b =
      if b
      then recover env cfg registry l
      else process_batch env cfg registry l (u64 (l.cursor + 1))
          (min (u64 (l.cursor + cfg.block_batch_size)) safe)

  -- The postcondition of a round is that of the choice, at what the check says of the database.
  abbrev pub Chooses : (Loop → World → Type 0) → (Exit → World → Type 0) → Loop → Database → Type 0
  Chooses R X l db =
      (safe t : ℕ) (b : Bool) (w : World)
      → l.cursor < safe
      → safe < bigint_size
      → w.db ≡ db
      → Detected env cfg.chain_id l.cursor t db b
      → Ends R X (chosen l safe b w)

  detection_next :
      (R : Loop → World → Type 0) (X : Exit → World → Type 0) (l : Loop) (safe : ℕ) (db : Database)
      (w : World)
      → ((x : Exit) (w' : World) → Unchanged l db x w' → X x w')
      → Chooses R X l db
      → l.cursor < safe
      → safe < bigint_size
      → w.db ≡ db
      → Ends R X (
          and_then
            (attempt env l (detect_reorg_at l.cursor) (detect_reorg env cfg.chain_id l.cursor) w)
            (chosen l safe))
  detection_next R X l safe db w enough choose h k same =
      attempt_next env l db X enough
        (λ b w'. (w'.db ≡ db) × Detected env cfg.chain_id l.cursor (suc w.now) db b) R
        (detect_reorg_at l.cursor) (detect_reorg env cfg.chain_id l.cursor) _ w
        (Ends-weaken _ _ _ _ (detect_reorg env cfg.chain_id l.cursor w)
          (λ b w' (kept, d).
            (kept ∙ same, subst (λ x. Detected env cfg.chain_id l.cursor (suc w.now) x b) same d))
          (λ _ _ e. e ∙ same) (detect_reorg-Detected env cfg.chain_id l.cursor w))
        (λ b w' (kept, d). choose safe (suc w.now) b w' h k kept d)

  -- A round ends as the choice between a rollback and a batch does, or leaves cursor and database alone.
  pub round-Chooses :
      (R : Loop → World → Type 0) (X : Exit → World → Type 0) (l : Loop) (w : World)
      → ((x : Exit) (w' : World) → Unchanged l w.db x w' → X x w')
      → Chooses R X l w.db
      → Ends R X (round env cfg registry l w)
  unfolding round
  round-Chooses R X l w enough choose =
      Ends-and_then (λ _ w1. w1.db ≡ w.db) _ _ (check_done env w) _
        (Ends-weaken _ _ _ _ (check_done env w) (λ _ _ e. e) enough
          (check_done-Unchanged env l w.db w refl))
        (λ _ w1 same1.
          attempt_next env l w.db X enough (λ head w2. (w2.db ≡ w.db) × (head < bigint_size)) _
            get_block_number (block_number env) _ w1
            (Ends-weaken _ _ _ _ (block_number env w1) (λ n _ r. (r.0 ∙ same1, heads w1.now n r.1))
              (λ _ _ e. e ∙ same1) (block_number_reads env cfg.chain_id 0 w1))
            (λ head w2 (same2, small).
              guard_next env l w.db X enough _ (ltb head cfg.confirmations) _ w2 same2 (λ _.
                guard_next env l w.db X enough _ (ltb head cfg.confirmations) _ w2 same2 (λ _.
                  guard_next env l w.db X enough _ (leb (head - cfg.confirmations) l.cursor) _ w2
                    same2
                    (λ above.
                      detection_next R X l (head - cfg.confirmations) w.db w2 enough choose
                        (ground arith) (omega arith) same2)))))
