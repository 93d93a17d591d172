-- ===== src/Reorg/Detect.antt =====
-- What `detectReorg` says (internal/indexer/reorg.go).
use cca_go_indexer.Base.{
  ℕ, suc, ◌<◌, ◌≡◌, refl, ◌≢◌, ◌⊎◌, inl, inr, Bool, true, false, not, some, arith, ◌==◌, Bool-cases,
  Option-cases,
}
use cca_go_indexer.Base.Effect.{Ends}
use cca_go_indexer.Reorg.{detect_reorg}
use cca_go_indexer.Store.Blocks.{block_hash}
use cca_go_indexer.Types.{BlockHeader, Codec, zero_hash}
use cca_go_indexer.World.Calls.{Env, World, query, header_by_number}
use cca_go_indexer.World.Database.{Database}

module _ ⦃c : Codec⦄ (env : Env) (chain : ℕ) where
  -- The answer for the block `n`, when the node was asked at the time `t`: a reorganisation, if the
  -- node has another header than the stored one; none, if it has the stored one, or if there is
  -- nothing to compare.
  abbrev pub Detected : ℕ → ℕ → Database → Bool → Type 0
  Detected n t db true =
      (0 < n)
      × (block_hash chain n db ≢ zero_hash)
      × ((h : BlockHeader) × (env.header_at t n ≡ some h) × (block_hash chain n db ≢ h.hash))
  Detected n t db false =
      (n ≡ 0)
      ⊎ ((block_hash chain n db ≡ zero_hash)
          ⊎ ((h : BlockHeader) × (env.header_at t n ≡ some h) × (block_hash chain n db ≡ h.hash)))

  compare_hashes :
      (n : ℕ) (w : World) (h : BlockHeader)
      → (n == 0) ≡ false
      → (block_hash chain n w.db == zero_hash) ≡ false
      → env.header_at (suc w.now) n ≡ some h
      → Detected n (suc w.now) w.db (not (block_hash chain n w.db == h.hash))
  compare_hashes n w h e z g = elim (Bool-cases (block_hash chain n w.db == h.hash)) [
    | inl same ↦ rw same (inr (inr (h, g, ground arith)))
    | inr other ↦ rw other (ground arith, ground arith, (h, g, ground arith))
  ]

  -- A check for a reorganisation reads only, and what it answers is what the store's and the node's
  -- hashes of the block say.
  pub detect_reorg-Detected :
      (n : ℕ) (w : World)
      → Ends
          (λ b w'. (w'.db ≡ w.db) × Detected n (suc w.now) w.db b)
          (λ _ w'. w'.db ≡ w.db)
          (detect_reorg env chain n w)
  unfolding detect_reorg query header_by_number
  detect_reorg-Detected n w = elim (Bool-cases (n == 0)) [
    | inl zero_block ↦ rw zero_block (refl, inl (ground arith))
    | inr e ↦ rw e (elim (Bool-cases (env.statement_fails w.now)) [
      | inl f ↦ rw f refl
      | inr f ↦ rw f (elim (Bool-cases (block_hash chain n w.db == zero_hash)) [
        | inl z ↦ rw z (refl, inr (inl (ground arith)))
        | inr z ↦ rw z (elim (Option-cases (env.header_at (suc w.now) n)) [
          | inl g ↦ rw g refl
          | inr (h, g) ↦ rw g (refl, compare_hashes n w h e z g)
        ])
      ])
    ])
  ]
