-- ===== src/Indexer/CatchUp.antt =====
-- That enough rounds of `ChainIndexer.Run` index the chain up to its safe head
-- (internal/indexer/indexer.go).
use cca_go_indexer.Base.{
  List, ℕ, zero, suc, ◌+◌, ◌-◌, ◌<◌, ◌≤◌, ◌≡◌, ap, ◌∙◌, inl, inr, true, false, arith, leb, ltb, min,
  Bool-cases,
}
use mathlib.Core.Path.{subst}
use cca_go_indexer.Base.Effect.{Result, ok, err, Ends}
use cca_go_indexer.Indexer.{
  IndexerConfig, Loop, Exit, continue_with, return_error, panic, round, next_round, go_on,
  run_rounds, check_done, pause,
}
use cca_go_indexer.Indexer.Invariant.{IsConsistent, Keeps}
use cca_go_indexer.Indexer.Commits.{Succeeds, HandlesLogs}
use cca_go_indexer.Indexer.Progress.{IsCurrent, round-Succeeds}
use cca_go_indexer.Indexer.Rounds.{round-Keeps}
use cca_go_indexer.Indexer.Trusted.{IsTrusted}
use cca_go_indexer.Registry.{HandlerMap}
use cca_go_indexer.Types.{BlockHeader, Codec, Log}
use cca_go_indexer.World.Calls.{Env, World, FilterQuery, block_number}
use cca_go_indexer.World.Database.{Database}
use cca_go_indexer.World.Healthy.{IsHealthy}

module _ ⦃c : Codec⦄ (env : Env) (cfg : IndexerConfig) (registry : HandlerMap)
    (trusted : IsTrusted env cfg registry) (floor head : ℕ) (header : ℕ → BlockHeader)
    (logs : FilterQuery → List Log) (healthy : IsHealthy env head header logs) where
  abbrev safe_head : ℕ
  safe_head = head - cfg.confirmations

  -- A round may begin at the block: it is above the floor and not above the safe head, and the store
  -- is consistent with it and has the chain's hash of it, or none.
  pub record IsReady (n : ℕ) (db : Database) : Type 0 where
    pub above : floor ≤ n
    pub below : n ≤ safe_head
    pub consistent : IsConsistent env cfg.chain_id floor n db
    pub current : IsCurrent env cfg registry head header logs healthy n db

  -- What a round hands on: the next round may begin at its block, which is higher, below the safe head.
  abbrev Advanced : ℕ → Exit × World → Type 0
  Advanced n (continue_with k, w) = IsReady k.cursor w.db × (min (n + 1) safe_head ≤ k.cursor)
  Advanced n (_, w) = ⊥

  consistent-IsCurrent :
      (n : ℕ) (db : Database)
      → floor < n
      → IsConsistent env cfg.chain_id floor n db
      → IsCurrent env cfg registry head header logs healthy n db
  consistent-IsCurrent n db h p =
      let (t, g, answered, stored) = p.hashes n h (omega arith) in
      let same : g ≡ header n = cc (healthy.header_answers t n) in
      inr (stored ∙ ap (λ k. k.hash) same)

  batch-Advanced :
      (l : Loop) (r : Result Exit Loop × World)
      → 0 < cfg.block_batch_size
      → floor ≤ l.cursor
      → l.cursor < safe_head
      → Succeeds
          (λ k _. k ≡ record {
            cursor = min (l.cursor + cfg.block_batch_size) safe_head;
            consecutive_errors = 0;
          })
          r
      → Ends
          (λ k w. IsConsistent env cfg.chain_id floor k.cursor w.db)
          (Keeps env cfg.chain_id floor)
          r
      → Advanced l.cursor (next_round env cfg registry r)
  batch-Advanced l (ok k, w) pos low below e p =
      let at_end : k.cursor ≡ min (l.cursor + cfg.block_batch_size) safe_head =
        ap (λ j. j.cursor) e in
      (
        record {
          above = ground arith;
          below = ground arith;
          consistent = p;
          current = consistent-IsCurrent k.cursor w.db (ground arith) p;
        },
        ground arith,
      )
  batch-Advanced l (err x, w) pos low below e p = absurd e

  idle-Advanced :
      (l : Loop) (w : World)
      → cfg.confirmations ≤ head
      → l.cursor ≡ safe_head
      → IsReady l.cursor w.db
      → Advanced l.cursor (next_round env cfg registry (round env cfg registry l w))
  unfolding round check_done block_number pause
  idle-Advanced l w confirmed e ready =
      let deep : ltb head cfg.confirmations ≡ false = ground arith in
      let at_head : leb safe_head l.cursor ≡ true = ground arith in
      rw
        (
          healthy.running w.now,
          healthy.head_answers (suc w.now),
          deep,
          at_head,
          healthy.running (suc (suc w.now)),
        )
        (ready, ground arith)

  round-Advanced :
      HandlesLogs env cfg registry head header logs healthy
      → (l : Loop) (w : World) → 0 < cfg.block_batch_size
      → cfg.confirmations ≤ head
      → IsReady l.cursor w.db
      → Advanced l.cursor (next_round env cfg registry (round env cfg registry l w))
  round-Advanced handles l w pos confirmed ready = elim (Bool-cases (ltb l.cursor safe_head)) [
    | inl e ↦
        batch-Advanced l (round env cfg registry l w) pos ready.above (ground arith)
          (round-Succeeds env cfg registry head header logs healthy handles l w pos
            trusted.batch_size (trusted.heads w.now head (healthy.head_answers w.now)) confirmed
            (ground arith) ready.current)
          (round-Keeps env cfg registry trusted floor l w ready.consistent)
    | inr e ↦ idle-Advanced l w confirmed (ground (arith, ready.below)) ready
  ]

  -- The loop has reached the safe head, with a consistent store.
  abbrev pub AtSafeHead : Exit × World → Type 0
  AtSafeHead (continue_with l, w) =
      (l.cursor ≡ safe_head) × IsConsistent env cfg.chain_id floor safe_head w.db
  AtSafeHead (_, w) = ⊥

  go_on-AtSafeHead :
      (n m : ℕ) (x : Exit × World)
      → ((k : Loop) (w : World)
          → IsReady k.cursor w.db
          → safe_head ≤ k.cursor + n
          → AtSafeHead (run_rounds env cfg registry n k w))
      → safe_head ≤ m + suc n
      → Advanced m x
      → AtSafeHead (go_on (run_rounds env cfg registry n) x)
  go_on-AtSafeHead n m (continue_with k, w) ih h (ready, higher) = ih k w ready (ground arith)
  go_on-AtSafeHead n m (return_error e, w) ih h never = absurd never
  go_on-AtSafeHead n m (panic, w) ih h never = absurd never

  -- Where every call succeeds, the chain stands still and the handlers take its logs, as many rounds
  -- as there are blocks up to the safe head index them all, with batches of at least one block: the
  -- loop is then at the safe head, and the store has the hash of every block above the floor up to it.
  pub run_rounds-AtSafeHead :
      HandlesLogs env cfg registry head header logs healthy
      → 0 < cfg.block_batch_size
      → cfg.confirmations ≤ head
      → (n : ℕ) (l : Loop) (w : World) → IsReady l.cursor w.db
      → safe_head ≤ l.cursor + n
      → AtSafeHead (run_rounds env cfg registry n l w)
  unfolding run_rounds
  run_rounds-AtSafeHead handles pos confirmed zero l w ready h =
      let e : l.cursor ≡ safe_head = omega (arith, ready.below) in
      (e, subst (λ k. IsConsistent env cfg.chain_id floor k w.db) e ready.consistent)
  run_rounds-AtSafeHead handles pos confirmed (suc n) l w ready h =
      go_on-AtSafeHead n l.cursor (next_round env cfg registry (round env cfg registry l w))
        (run_rounds-AtSafeHead handles pos confirmed n) h
        (round-Advanced handles l w pos confirmed ready)
