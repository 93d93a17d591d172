-- ===== src/Reorg/Finds.antt =====
-- That a reorganisation is recovered from when the services answer (internal/indexer/reorg.go).
use cca_go_indexer.Base.{
  ℕ, zero, suc, ◌+◌, ◌-◌, ◌<◌, ◌≤◌, ◌≡◌, refl, ◌≢◌, ap, ◌∙◌, sym, List, false, arith, leb, ◌==◌,
  ne→==, ==_self, Bool-cases, inl, inr, ◌⊎◌,
}
use mathlib.Core.Path.{subst}
use cca_go_indexer.Base.Effect.{ok}
use cca_go_indexer.Reorg.{find_ancestor, rollback, handle_reorg, max_reorg_depth}
use cca_go_indexer.Reorg.Rollback.{rolled_back, deletions-keep_hash}
use cca_go_indexer.Store.Blocks.{block_hash}
use cca_go_indexer.Types.{Codec, BlockHeader, Log}
use cca_go_indexer.World.Calls.{Env, World, FilterQuery, exec, query, tick, header_by_number}
use cca_go_indexer.World.Database.{Database}
use cca_go_indexer.World.Healthy.{IsHealthy}
use cca_go_indexer.World.Tx.{with_tx}

near-leb : (a b : ℕ) → b < a + max_reorg_depth → leb max_reorg_depth (b - a) ≡ false
near-leb a b h = ground arith

module _ ⦃c : Codec⦄ (env : Env) (chain head : ℕ) (header : ℕ → BlockHeader)
    (logs : FilterQuery → List Log) (healthy : IsHealthy env head header logs) where
  -- The last block below `b` that the store has as the chain has it.
  pub record IsLastShared (b a : ℕ) (db : Database) : Type 0 where
    pub shared : block_hash chain a db ≡ (header a).hash
    pub above : (n : ℕ) → a < n → n < b → block_hash chain n db ≢ (header n).hash

  -- Where a block below `b` is stored as the chain has it, there is a last one.
  pub find-IsLastShared :
      (b s : ℕ) (db : Database)
      → s < b
      → block_hash chain s db ≡ (header s).hash
      → (a : ℕ) × (s ≤ a) × (a < b) × IsLastShared b a db
  find-IsLastShared zero s db h same = absurd (omega arith)
  find-IsLastShared (suc n) s db h same =
      elim (Bool-cases (block_hash chain n db == (header n).hash)) [
        | inl here ↦ (
          n,
          omega arith,
          omega arith,
          record { shared = ground arith; above = λ m low high. absurd (omega arith) },
        )
        | inr other ↦
            let differs : block_hash chain n db ≢ (header n).hash = ground arith in
            let lower : n ≢ s =
              λ e. differs (subst (λ k. block_hash chain k db ≡ (header k).hash) (sym e) same) in
            let (a, low, below, last) = find-IsLastShared n s db (omega arith) same in
            (
              a,
              low,
              omega arith,
              record {
                shared = last.shared;
                above = λ m p q. elim (Bool-cases (m == n)) [
                  | inl e ↦
                      let top : n ≡ m = ground arith in
                      subst (λ k. block_hash chain k db ≢ (header k).hash) top differs
                  | inr e ↦ last.above m p (ground arith)
                ];
              },
            )
      ]

  -- There is a last one, or none.
  pub search-IsLastShared :
      (b : ℕ) (db : Database)
      → ((a : ℕ) × (a < b) × IsLastShared b a db)
        ⊎ ((n : ℕ) → n < b → block_hash chain n db ≢ (header n).hash)
  search-IsLastShared zero db = inr (λ n h. absurd (omega arith))
  search-IsLastShared (suc n) db = elim (Bool-cases (block_hash chain n db == (header n).hash)) [
    | inl here ↦
        let (a, _, below, last) = find-IsLastShared (suc n) n db (omega arith) (ground arith) in
        inl (a, below, last)
    | inr other ↦ elim (search-IsLastShared n db) [
      | inl (a, below, last) ↦
          let (a', _, below', last') = find-IsLastShared (suc n) a db (omega arith) last.shared in
          inl (a', below', last')
      | inr none_below ↦
          let differs : block_hash chain n db ≢ (header n).hash = ground arith in
          inr (λ m h. elim (Bool-cases (n == m)) [
            | inl e ↦
                let top : n ≡ m = ground arith in
                subst (λ k. block_hash chain k db ≢ (header k).hash) top differs
            | inr e ↦ none_below m (ground arith)
          ])
    ]
  ]

  find_ancestor-last :
      (rounds b a : ℕ) (w : World)
      → a < b
      → b ≤ a + rounds
      → IsLastShared b a w.db
      → (w' : World) × (find_ancestor env chain rounds b w ≡ (ok a, w')) × (w'.db ≡ w.db)
  unfolding find_ancestor query header_by_number
  find_ancestor-last zero b a w h k last = absurd (omega arith)
  find_ancestor-last (suc rounds) zero a w h k last = elim h [ ]
  find_ancestor-last (suc rounds) (suc n) a w h k last =
      rw (healthy.statements w.now, healthy.header_answers (suc w.now) n)
        (elim (Bool-cases (n == a)) [
          | inl e ↦
              let e' : n ≡ a = ground arith in
              rw (e', last.shared, ==_self (header a).hash) (tick (tick w), refl, refl)
          | inr e ↦ rw (ne→== _ _ (last.above n (ground arith) (omega arith))) (
              find_ancestor-last rounds n a (tick (tick w)) (ground arith) (omega arith)
                (record { shared = last.shared; above = λ m p q. last.above m p (omega arith) }))
        ])

  rollback_runs :
      (a : ℕ) (w : World)
      → (w' : World) × (rollback env chain a w ≡ (ok tt, w')) × (w'.db ≡ rolled_back chain a w.db)
  unfolding rollback exec query
  rollback_runs a w = (
    record { db = rolled_back chain a w.db; now = suc (suc (suc (suc (suc w.now)))) },
    unfold rolled_back in simp (healthy.statements, deletions-keep_hash),
    refl,
  )

  -- Where the search has found a block, it is rolled back to.
  pub commit_runs :
      (b a : ℕ) (w w' : World)
      → b < a + max_reorg_depth
      → w'.db ≡ w.db
      → find_ancestor env chain max_reorg_depth b w ≡ (ok a, w')
      → (w'' : World) × (handle_reorg env chain b w ≡ (ok a, w''))
        × (w''.db ≡ rolled_back chain a w.db)
  unfolding handle_reorg with_tx
  commit_runs b a w w' near same found =
      let (v, done, e) = rollback_runs a (tick w') in
      (
        tick v,
        rw (found, near-leb a b near, healthy.begins w'.now, done, healthy.commits v.now) refl,
        e ∙ ap (rolled_back chain a) same,
      )

  -- Where every call succeeds and the chain stands still, a reorganisation at the block `b` rolls
  -- back to the last block below it that store and chain share, if that is less than 128 blocks down.
  pub handle_reorg-ok :
      (b a : ℕ) (w : World)
      → a < b
      → b < a + max_reorg_depth
      → IsLastShared b a w.db
      → (w' : World) × (handle_reorg env chain b w ≡ (ok a, w'))
        × (w'.db ≡ rolled_back chain a w.db)
  handle_reorg-ok b a w h k last =
      let (w', found, same) = find_ancestor-last max_reorg_depth b a w h (omega arith) last in
      commit_runs b a w w' k same found
