-- ===== src/Reorg/Unshared.antt =====
-- What becomes of a reorganisation below which no stored block is the chain's (internal/indexer/reorg.go).
use cca_go_indexer.Base.{
  ℕ, zero, suc, ◌+◌, ◌-◌, ◌<◌, ◌≤◌, ◌≡◌, refl, ◌≢◌, ap, ◌∙◌, sym, List, true, arith, leb, ne→==,
  Bool-cases, inl, inr,
}
use mathlib.Core.Path.{subst}
use cca_go_indexer.Base.Effect.{Result, ok, err}
use cca_go_indexer.Reorg.{find_ancestor, handle_reorg, max_reorg_depth}
use cca_go_indexer.Reorg.Finds.{commit_runs}
use cca_go_indexer.Reorg.Rollback.{rolled_back}
use cca_go_indexer.Store.Blocks.{block_hash}
use cca_go_indexer.Types.{Codec, BlockHeader, Log}
use cca_go_indexer.World.Calls.{Env, World, FilterQuery, query, tick, header_by_number}
use cca_go_indexer.World.Database.{Database}
use cca_go_indexer.World.Errors.{Error, reorg_too_deep}
use cca_go_indexer.World.Healthy.{IsHealthy}

module _ ⦃c : Codec⦄ (env : Env) (chain head : ℕ) (header : ℕ → BlockHeader)
    (logs : FilterQuery → List Log) (healthy : IsHealthy env head header logs) where
  -- Of the blocks below `b`, so many of them, the store has none as the chain has it.
  abbrev pub IsUnshared : ℕ → ℕ → Database → Type 0
  IsUnshared rounds b db =
      (n : ℕ) → n < b → b ≤ n + rounds → block_hash chain n db ≢ (header n).hash

  find_ancestor_none :
      (rounds b : ℕ) (w : World)
      → IsUnshared rounds b w.db
      → (w' : World) × (find_ancestor env chain rounds b w ≡ (ok (b - rounds), w')) × (w'.db ≡ w.db)
  unfolding find_ancestor query header_by_number
  find_ancestor_none zero b w h =
      let all : b ≡ b - 0 = omega arith in (w, ap (λ k. (ok k, w)) all, refl)
  find_ancestor_none (suc rounds) zero w h =
      let genesis : 0 ≡ 0 - suc rounds = omega arith in (w, ap (λ k. (ok k, w)) genesis, refl)
  find_ancestor_none (suc rounds) (suc n) w h =
      let next : suc n - suc rounds ≡ n - rounds = omega arith in
      rw
        (
          next,
          healthy.statements w.now,
          healthy.header_answers (suc w.now) n,
          ne→== _ _ (h n (omega arith) (omega arith)),
        )
        (find_ancestor_none rounds n (tick (tick w)) (λ m p q. h m (omega arith) (omega arith)))

  -- The answer to a reorganisation without a shared block.
  abbrev pub IsRestart : ℕ → Database → Result Error ℕ × World → Type 0
  IsRestart b db (ok a, w) = (b < max_reorg_depth) × (a ≡ 0) × (w.db ≡ rolled_back chain 0 db)
  IsRestart b db (err e, w) = (max_reorg_depth ≤ b) × (e ≡ reorg_too_deep) × (w.db ≡ db)

  far_leb : (b : ℕ) → max_reorg_depth ≤ b → leb max_reorg_depth (b - (b - max_reorg_depth)) ≡ true
  far_leb b h = let all : b - (b - max_reorg_depth) ≡ max_reorg_depth = omega arith in rw all refl

  too_deep :
      (b : ℕ) (w w' : World)
      → max_reorg_depth ≤ b
      → w'.db ≡ w.db
      → find_ancestor env chain max_reorg_depth b w ≡ (ok (b - max_reorg_depth), w')
      → IsRestart b w.db (handle_reorg env chain b w)
  unfolding handle_reorg
  too_deep b w w' deep same found = rw (found, far_leb b deep) (deep, refl, same)

  -- Below the block 128 there is the block 0 to go back to.
  pub restart_runs :
      (b : ℕ) (w : World)
      → b < max_reorg_depth
      → IsUnshared max_reorg_depth b w.db
      → (w' : World) × (handle_reorg env chain b w ≡ (ok 0, w'))
        × (w'.db ≡ rolled_back chain 0 w.db)
  restart_runs b w below h =
      let (w', found, same) = find_ancestor_none max_reorg_depth b w h in
      let genesis : b - max_reorg_depth ≡ 0 = omega arith in
      commit_runs env chain head header logs healthy b 0 w w' (omega arith) same
        (found ∙ ap (λ k. (ok k, w')) genesis)

  -- Where every call succeeds, the chain stands still and none of the 128 blocks below the
  -- reorganised one is stored as the chain has it, a reorganisation below the block 128 goes back to
  -- the block 0 and deletes all above it, and any other is given up as too deep, with nothing changed.
  pub handle_reorg-IsRestart :
      (b : ℕ) (w : World)
      → IsUnshared max_reorg_depth b w.db
      → IsRestart b w.db (handle_reorg env chain b w)
  handle_reorg-IsRestart b w h = elim (Bool-cases (leb max_reorg_depth b)) [
    | inl deep ↦
        let (w', found, same) = find_ancestor_none max_reorg_depth b w h in
        too_deep b w w' (ground arith) same found
    | inr near ↦
        let below : b < max_reorg_depth = ground arith in
        let (w', done, rolled) = restart_runs b w below h in
        subst (IsRestart b w.db) (sym done) (below, refl, rolled)
  ]
