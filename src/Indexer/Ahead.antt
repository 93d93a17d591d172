-- ===== src/Indexer/Ahead.antt =====
-- That the tables stay the index of the chain where commits may be lost (`ChainIndexer.Run` in
-- internal/indexer/indexer.go).
use cca_go_indexer.Base.{
  ℕ, ◌+◌, ◌-◌, ◌<◌, ◌≤◌, ◌≡◌, ◌∙◌, sym, inl, inr, true, false, arith, Bool-cases, ltb, u64, min,
}
use mathlib.Core.Path.{subst}
use cca_go_indexer.AuctionCreated.{Formats}
use cca_go_indexer.Base.Effect.{Result, ok, err, Ends, Ends-and_then, Ends-weaken}
use cca_go_indexer.Indexer.{
  IndexerConfig, Loop, Exit, continue_with, return_error, panic, attempt, store_batch, round,
  next_round, run_rounds,
}
use cca_go_indexer.Indexer.BatchCommits.{commit_batch, process_batch-Commits}
use cca_go_indexer.Indexer.Detection.{Chooses, round-Chooses}
use cca_go_indexer.Indexer.Hashes.{
  block_hash-index_blocks, block_hash-index_blocks_below, tables-block_hash,
}
use cca_go_indexer.Indexer.Index.{Chain, tables, index_blocks, logs_from, headers_from}
use cca_go_indexer.Indexer.Overlap.{index_blocks_over}
use cca_go_indexer.Indexer.Runs.{run_rounds_invariant}
use cca_go_indexer.Indexer.Still.{IsStill, store_batch-index_blocks}
use cca_go_indexer.Indexer.StillRounds.{IsCurrent, not-Detected}
use cca_go_indexer.Indexer.Trusted.{SmallHeads, bigint_size}
use cca_go_indexer.Indexer.Unchanged.{Unchanged, attempt_keeps}
use cca_go_indexer.Registry.{HandlerMap}
use cca_go_indexer.Store.Inserts.{IsFree}
use cca_go_indexer.Types.{Codec, Hash}
use cca_go_indexer.World.Calls.{Env, World, Action, tick}
use cca_go_indexer.World.Database.{Database}
use cca_go_indexer.World.Errors.{executing_batch}
use cca_go_indexer.World.Tx.{with_tx, with_tx-Ends, Undone}

module _ ⦃c : Codec⦄ (f : Formats) (env : Env) (cfg : IndexerConfig) (registry : HandlerMap)
    (ch : Chain) (still : IsStill f env cfg registry ch) (heads : SmallHeads env)
    (batch_size : cfg.block_batch_size < bigint_size) (base : ℕ) (before : Database)
    (free : IsFree cfg.chain_id (base + 1) before)
    (current : IsCurrent f env cfg registry ch still base before) where
  -- The tables are those of before and the index of the blocks above the base, up to `n` or to a
  -- higher block.
  pub record IsAhead (n : ℕ) (db : Database) : Type 0 where
    pub upto : ℕ
    pub low : base ≤ n
    pub ahead : n ≤ upto
    pub index : tables db ≡ tables (index_blocks f cfg.chain_id ch (base + 1) (upto - base) before)

  -- So it is for the block of the loop, or, where `Run` has ended, for some block.
  abbrev pub KeepsAhead : Exit → World → Type 0
  KeepsAhead (continue_with k) w = IsAhead k.cursor w.db
  KeepsAhead (return_error e) w = (n : ℕ) × IsAhead n w.db
  KeepsAhead panic w = (n : ℕ) × IsAhead n w.db

  idle-KeepsAhead :
      (l : Loop) (db : Database)
      → IsAhead l.cursor db
      → (x : Exit) (w : World) → Unchanged l db x w
      → KeepsAhead x w
  idle-KeepsAhead l db p (continue_with k) w (at, same) =
      subst (λ n. IsAhead n w.db) (sym at) (subst (IsAhead l.cursor) (sym same) p)
  idle-KeepsAhead l db p (return_error e) w same = (l.cursor, subst (IsAhead l.cursor) (sym same) p)
  idle-KeepsAhead l db p panic w same = (l.cursor, subst (IsAhead l.cursor) (sym same) p)

  IsAhead-IsCurrent :
      (n : ℕ) (db : Database) → IsAhead n db → IsCurrent f env cfg registry ch still n db
  IsAhead-IsCurrent n db p =
      let indexed = index_blocks f cfg.chain_id ch (base + 1) (p.upto - base) before in
      let stored = tables-block_hash f cfg.chain_id n indexed db p.index in
      elim (Bool-cases (ltb base n)) [
        | inl high ↦ inr (
            stored
            ∙ block_hash-index_blocks f cfg.chain_id ch n (p.upto - base) (base + 1) before free
                (ground arith) (ground (arith, p.ahead)))
        | inr low ↦
            let at : base ≡ n = ground (arith, p.low) in
            let kept =
              stored
              ∙ block_hash-index_blocks_below f cfg.chain_id ch n (p.upto - base) (base + 1) before
                  (omega arith) in
            elim (subst (λ i. IsCurrent f env cfg registry ch still i before) at current) [
              | inl nothing ↦ inl (kept ∙ nothing)
              | inr same ↦ inr (kept ∙ same)
            ]
      ]

  -- A batch that was stored, whatever of it was there.
  stored-IsAhead :
      (l : Loop) (to : ℕ) (db db' : Database)
      → IsAhead l.cursor db
      → l.cursor ≤ to
      → tables db' ≡ tables (index_blocks f cfg.chain_id ch (l.cursor + 1) (to - l.cursor) db)
      → IsAhead to db'
  stored-IsAhead l to db db' p le e =
      let (m, above, index) =
        index_blocks_over f cfg.chain_id ch base l.cursor p.upto to before db db' p.low p.ahead le
          p.index e in
      record { upto = m; low = omega (arith, p.low); ahead = above; index = index }

  IsAhead-lower : (m n : ℕ) (db : Database) → base ≤ m → m ≤ n → IsAhead n db → IsAhead m db
  IsAhead-lower m n db low le p = record {
    upto = p.upto;
    low = low;
    ahead = omega (arith, p.ahead);
    index = p.index;
  }

  Undone-IsAhead :
      {A : Type 0} (l : Loop) (to : ℕ) (db : Database) (w : World)
      → IsAhead l.cursor db
      → l.cursor ≤ to
      → Undone env {A = A} (λ _ db'. IsAhead to db') db w
      → IsAhead l.cursor w.db
  Undone-IsAhead l to db w p le (inl same) = subst (IsAhead l.cursor) (sym same) p
  Undone-IsAhead l to db w p le (inr (_, stored, _)) =
      IsAhead-lower l.cursor to w.db p.low le stored

  -- A commit that is lost leaves the tables ahead of the loop.
  commit-IsAhead :
      (l : Loop) (to : ℕ) (last : Hash) (w : World)
      → l.cursor ≤ to
      → IsAhead l.cursor w.db
      → Ends
          (λ k w'. IsAhead k.cursor w'.db)
          KeepsAhead
          (commit_batch f env cfg registry ch still l to last w)
  commit-IsAhead l to last w le p =
      Ends-and_then (λ _ w'. IsAhead to w'.db) _ _
        (attempt env l executing_batch (with_tx env batch) w) _
        (attempt_keeps env l (IsAhead l.cursor) KeepsAhead (λ _ w'. IsAhead to w'.db)
          executing_batch (with_tx env batch w) (idle-KeepsAhead l)
          (Ends-weaken _ _ _ _ (with_tx env batch w) (λ _ _ q. q)
            (λ _ w' u. Undone-IsAhead l to w.db w' p le u)
            (with_tx-Ends env (λ _ db'. IsAhead to db') batch w
              (Ends-weaken _ _ _ _ (batch (tick w))
                (λ _ w' (e, _). stored-IsAhead l to w.db w'.db p le e) (λ _ _ u. u)
                (store_batch-index_blocks f env cfg registry ch still (l.cursor + 1) to
                  (to - l.cursor) last (tick w))))))
        (λ _ _ q. q)
    where
      batch : Action (Unit {0})
      batch =
          store_batch env cfg registry (l.cursor + 1) to
            (logs_from ch (l.cursor + 1) (to - l.cursor))
            (headers_from ch (l.cursor + 1) (to - l.cursor)) last

  choose-IsAhead :
      (l : Loop) (db : Database)
      → IsAhead l.cursor db
      → Chooses env cfg registry heads (λ k w'. IsAhead k.cursor w'.db) KeepsAhead l db
  choose-IsAhead l db p safe t true w h k same d =
      let impossible =
        not-Detected f env cfg registry ch still l.cursor t db true
          (IsAhead-IsCurrent l.cursor db p) d in
      cc
  choose-IsAhead l db p safe t false w h k same d =
      let next_block : u64 (l.cursor + 1) ≡ l.cursor + 1 = omega arith in
      let here : IsAhead l.cursor w.db = subst (IsAhead l.cursor) (sym same) p in
      rw next_block (
        process_batch-Commits f env cfg registry ch still (λ k' w'. IsAhead k'.cursor w'.db)
          KeepsAhead l (min (u64 (l.cursor + cfg.block_batch_size)) safe) w
          (idle-KeepsAhead l w.db here) (ground (arith, batch_size)) (ground arith)
          (λ last w' same'.
            commit-IsAhead l (min (u64 (l.cursor + cfg.block_batch_size)) safe) last w'
              (ground (arith, batch_size)) (subst (IsAhead l.cursor) (sym same') here)))

  round-IsAhead :
      (l : Loop) (w : World)
      → IsAhead l.cursor w.db
      → Ends (λ k w'. IsAhead k.cursor w'.db) KeepsAhead (round env cfg registry l w)
  round-IsAhead l w p =
      round-Chooses env cfg registry heads (λ k w'. IsAhead k.cursor w'.db) KeepsAhead l w
        (idle-KeepsAhead l w.db p) (choose-IsAhead l w.db p)

  abbrev pub AheadAfter : Exit × World → Type 0
  AheadAfter (x, w) = KeepsAhead x w

  next-AheadAfter :
      (r : Result Exit Loop × World)
      → Ends (λ k w'. IsAhead k.cursor w'.db) KeepsAhead r
      → AheadAfter (next_round env cfg registry r)
  next-AheadAfter (ok k, w) p = p
  next-AheadAfter (err x, w) p = p

  -- While the chain stands still, with heads and a batch size in BIGINT's range, over a database
  -- with no block above the base and the chain's hash of the base, or none, any number of rounds
  -- keeps the tables those of before and the index of the blocks above the base, up to the loop's
  -- cursor or a higher block, whichever calls fail and also where commits are carried out and
  -- reported as failed; where `Run` has ended, it is so up to some block.
  pub run_rounds-AheadAfter :
      (n : ℕ) (l : Loop) (w : World)
      → IsAhead l.cursor w.db
      → AheadAfter (run_rounds env cfg registry n l w)
  run_rounds-AheadAfter =
      run_rounds_invariant env cfg registry AheadAfter
        (λ l w p. next-AheadAfter (round env cfg registry l w) (round-IsAhead l w p))
