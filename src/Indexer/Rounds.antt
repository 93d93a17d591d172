-- ===== src/Indexer/Rounds.antt =====
-- Every round of `ChainIndexer.Run` keeps the store consistent (internal/indexer/indexer.go).
use cca_go_indexer.Base.{
  ℕ, suc, ◌+◌, ◌-◌, ◌<◌, ◌≤◌, ◌≡◌, refl, sym, inl, inr, Bool, true, false, ◌==◌, ◌&&◌, arith, leb,
  ltb, u64, min, if◌then◌else◌, Bool-cases,
}
use mathlib.Core.Path.{subst}
use cca_go_indexer.Base.Effect.{
  Result, ok, err, Ends, Ends-and_then, Ends-weaken, ◌>>=◌, ◌>>◌, pure,
}
use cca_go_indexer.Indexer.{
  IndexerConfig, Loop, Exit, Round, pause, check_done, attempt, or_return, process_batch, recover,
  round, next_round, run_rounds, run, initial_cursor,
}
use cca_go_indexer.Indexer.Invariant.{
  IsConsistent, IsResumable, Keeps, IsRecovered-IsConsistent, attempt-Keeps, or_return-Keeps,
  pause-Keeps, check_done-Keeps, block_number_reads,
}
use cca_go_indexer.Indexer.Runs.{run_rounds_invariant}
use cca_go_indexer.Indexer.Trusted.{IsTrusted, bigint_size}
use cca_go_indexer.Indexer.BatchRound.{process_batch-Keeps}
use cca_go_indexer.Registry.{HandlerMap}
use cca_go_indexer.Reorg.{detect_reorg, handle_reorg}
use cca_go_indexer.Reorg.Detect.{Detected, detect_reorg-Detected}
use cca_go_indexer.Reorg.Rollback.{handle_reorg-IsRecovered}
use cca_go_indexer.Store.Cursors.{stored_cursor}
use cca_go_indexer.Types.{Codec}
use cca_go_indexer.World.Calls.{Env, World, Action, tick, query, block_number}
use cca_go_indexer.World.Database.{Database}
use cca_go_indexer.World.Errors.{
  Operation, handle_reorg as handling_reorg, get_block_number, detect_reorg_at,
}

module _ ⦃c : Codec⦄ (env : Env) (cfg : IndexerConfig) (registry : HandlerMap)
    (trusted : IsTrusted env cfg registry) (floor : ℕ) where
  abbrev Cons : ℕ → Database → Type 0
  Cons = IsConsistent env cfg.chain_id floor

  abbrev KeepsIt : Exit → World → Type 0
  KeepsIt = Keeps env cfg.chain_id floor

  -- The next round begins with a consistent store.
  abbrev KeepsLoop : Loop → World → Type 0
  KeepsLoop l w = Cons l.cursor w.db

  recover-Keeps :
      (l : Loop) (w : World)
      → Cons l.cursor w.db
      → Ends KeepsLoop KeepsIt (recover env cfg registry l w)
  unfolding recover
  recover-Keeps l w p =
      Ends-and_then (λ a w'. Cons a w'.db) _ _
        (or_return env handling_reorg (handle_reorg env cfg.chain_id l.cursor) w) _
        (or_return-Keeps env cfg.chain_id floor (λ a w'. Cons a w'.db) handling_reorg l.cursor
          (handle_reorg env cfg.chain_id l.cursor w)
          (Ends-weaken _ _ _ _ (handle_reorg env cfg.chain_id l.cursor w)
            (λ a w' r. IsRecovered-IsConsistent env cfg.chain_id floor l.cursor a w.db w'.db p r)
            (λ _ w' same. subst (Cons l.cursor) (sym same) p)
            (handle_reorg-IsRecovered cfg.chain_id env l.cursor w trusted.commits)))
        (λ a w' q. q)

  choose-Keeps :
      (l : Loop) (safe_head : ℕ) (reorged : Bool) (w : World)
      → l.cursor < safe_head
      → safe_head < bigint_size
      → Cons l.cursor w.db
      → Ends KeepsLoop KeepsIt (
          (if reorged
              then recover env cfg registry l
              else process_batch env cfg registry l
                  (u64 (l.cursor + 1))
                  (min (u64 (l.cursor + cfg.block_batch_size)) safe_head))
            w)
  choose-Keeps l safe_head true w h k p = recover-Keeps l w p
  choose-Keeps l safe_head false w h k p =
      let from : u64 (l.cursor + 1) ≡ l.cursor + 1 = omega arith in
      rw from (
        process_batch-Keeps env cfg registry trusted floor l
          (min (u64 (l.cursor + cfg.block_batch_size)) safe_head) w
          (omega (arith, trusted.batch_size)) (omega arith) p)

  -- A test that pauses the loop, and what comes after it.
  guard_then :
      (l : Loop) (b : Bool) (next : Round Loop) (w : World)
      → Cons l.cursor w.db
      → (b ≡ false → Ends KeepsLoop KeepsIt (next w))
      → Ends KeepsLoop KeepsIt (((if b then pause env l else pure tt) >> next) w)
  guard_then l true next w p h =
      Ends-and_then (λ _ _. ⊥) _ _ (pause env {A = Unit {0}} l w) (λ _. next)
        (pause-Keeps env cfg.chain_id floor (λ _ _. ⊥) l w p) (λ _ _ never. absurd never)
  guard_then l false next w p h = h refl

  -- A retried step that reads, and what comes after it.
  attempt_then :
      {A : Type 0} (l : Loop) (o : Operation) (m : Action A) (F : A → Type 0)
      (next : A → Round Loop) (w : World)
      → Cons l.cursor w.db
      → Ends (λ a w'. (w'.db ≡ w.db) × F a) (λ _ w'. w'.db ≡ w.db) (m w)
      → ((a : A) (w' : World) → Cons l.cursor w'.db → F a → Ends KeepsLoop KeepsIt (next a w'))
      → Ends KeepsLoop KeepsIt ((attempt env l o m >>= next) w)
  attempt_then l o m F next w p reads h =
      Ends-and_then (λ a w'. Cons l.cursor w'.db × F a) _ _ (attempt env l o m w) next
        (attempt-Keeps env cfg.chain_id floor (λ a w'. Cons l.cursor w'.db × F a) l o (m w)
          (Ends-weaken _ _ _ _ (m w) (λ a w' r. (subst (Cons l.cursor) (sym r.0) p, r.1))
            (λ _ w' same. subst (Cons l.cursor) (sym same) p) reads))
        (λ a w' q. h a w' q.0 q.1)

  -- From the check for a reorganisation on.
  detect_then :
      (l : Loop) (safe_head : ℕ) (w : World)
      → l.cursor < safe_head
      → safe_head < bigint_size
      → Cons l.cursor w.db
      → Ends KeepsLoop KeepsIt (
          (do
            reorged ←
                attempt env l (detect_reorg_at l.cursor) (detect_reorg env cfg.chain_id l.cursor)
            if reorged
                then recover env cfg registry l
                else process_batch env cfg registry l
                    (u64 (l.cursor + 1))
                    (min (u64 (l.cursor + cfg.block_batch_size)) safe_head))
            w)
  detect_then l safe_head w h k p =
      attempt_then l (detect_reorg_at l.cursor) (detect_reorg env cfg.chain_id l.cursor)
        (Detected env cfg.chain_id l.cursor (suc w.now) w.db) _ w p
        (detect_reorg-Detected env cfg.chain_id l.cursor w)
        (λ reorged w' q _. choose-Keeps l safe_head reorged w' h k q)

  -- A round of the loop keeps the store consistent, whatever the trusted services answer: with the cursor
  -- that the next round begins with, or, where `Run` ends, with some cursor.
  pub round-Keeps :
      (l : Loop) (w : World)
      → Cons l.cursor w.db
      → Ends KeepsLoop KeepsIt (round env cfg registry l w)
  unfolding round
  round-Keeps l w p =
      Ends-and_then (λ _ w1. w1.db ≡ w.db) _ _ (check_done env w) _
        (check_done-Keeps env cfg.chain_id floor l.cursor w p)
        (λ _ w1 same.
          let p1 = subst (Cons l.cursor) (sym same) p in
          attempt_then l get_block_number (block_number env) (λ n. n < bigint_size) _ w1 p1
            (Ends-weaken _ _ _ _ (block_number env w1) (λ n _ r. (r.0, trusted.heads w1.now n r.1))
              (λ _ _ e. e) (block_number_reads env cfg.chain_id floor w1))
            (λ head w2 p2 small. guard_then l (ltb head cfg.confirmations) _ w2 p2 (λ _.
              guard_then l (ltb head cfg.confirmations) _ w2 p2 (λ _.
                guard_then l (leb (head - cfg.confirmations) l.cursor) _ w2 p2 (λ above.
                  detect_then l (head - cfg.confirmations) w2 (ground arith) (omega arith) p2)))))

  next-Keeps :
      (r : Result Exit Loop × World)
      → Ends KeepsLoop KeepsIt r
      → KeepsIt (next_round env cfg registry r).0 (next_round env cfg registry r).1
  next-Keeps (ok l, w) p = p
  next-Keeps (err x, w) p = p

  run_rounds-Keeps :
      (n : ℕ) (l : Loop) (w : World)
      → Cons l.cursor w.db
      → KeepsIt (run_rounds env cfg registry n l w).0 (run_rounds env cfg registry n l w).1
  run_rounds-Keeps =
      run_rounds_invariant env cfg registry (λ x. KeepsIt x.0 x.1)
        (λ l w p. next-Keeps (round env cfg registry l w) (round-Keeps l w p))

  -- The cursor that `Run` starts with.
  initial-IsConsistent :
      (db : Database)
      → cfg.start_block ≤ floor + 1
      → IsResumable env cfg.chain_id floor db
      → Cons (initial_cursor cfg.start_block (stored_cursor cfg.chain_id db).0) db
  initial-IsConsistent db h p =
      elim (Bool-cases (((stored_cursor cfg.chain_id db).0 == 0) && ltb 0 cfg.start_block)) [
        | inl e ↦
            rw (e, initial_cursor)
              (record {
                rows = p.rows;
                persisted = inr (ground arith, omega arith);
                hashes = λ n f k. absurd (omega arith);
              })
        | inr e ↦ rw (e, initial_cursor) p
      ]

  -- From a store that can be resumed from, and with a start block at most one above the floor, `Run`
  -- keeps it so over any number of rounds, whatever the trusted services answer: while it runs, the
  -- store is consistent with the loop's cursor, and where it has ended, by an error or a panic, with
  -- the stored one.
  pub run-Keeps :
      (n : ℕ) (w : World)
      → cfg.start_block ≤ floor + 1
      → IsResumable env cfg.chain_id floor w.db
      → KeepsIt (run env cfg registry n w).0 (run env cfg registry n w).1
  unfolding run query
  run-Keeps n w h p = elim (Bool-cases (env.statement_fails w.now)) [
    | inl e ↦ rw e p
    | inr e ↦ rw e (
        run_rounds-Keeps n
          (record {
            cursor = initial_cursor cfg.start_block (stored_cursor cfg.chain_id w.db).0;
            consecutive_errors = 0;
          })
          (tick w) (initial-IsConsistent w.db h p))
  ]
