-- ===== src/Indexer/Standing.antt =====
-- That an indexer of the node's chain comes to its safe head (`ChainIndexer.Run` in
-- internal/indexer/indexer.go).
use cca_go_indexer.Base.{
  ℕ, zero, suc, ◌+◌, ◌-◌, ◌<◌, ◌≤◌, ◌≡◌, ap, inl, inr, true, false, List, arith, Bool-cases, leb,
  ltb, min,
}
use mathlib.Core.Path.{subst}
use cca_go_indexer.AuctionCreated.{Formats}
use cca_go_indexer.Base.Effect.{Result, ok, err, Ends}
use cca_go_indexer.Indexer.{
  IndexerConfig, Loop, Exit, continue_with, return_error, panic, round, next_round, go_on,
  run_rounds, check_done, pause,
}
use cca_go_indexer.Indexer.Commits.{Succeeds, HandlesLogs}
use cca_go_indexer.Indexer.Histories.{base}
use cca_go_indexer.Indexer.Index.{Chain}
use cca_go_indexer.Indexer.Progress.{IsCurrent, round-Succeeds}
use cca_go_indexer.Indexer.Still.{IsStill}
use cca_go_indexer.Indexer.Switches.{Chains, IsIndexOf, IsIndexOf-block_hash, IsIndexOf-no_hash}
use cca_go_indexer.Indexer.SwitchRounds.{Follows, round-Follows}
use cca_go_indexer.Indexer.Trusted.{IsTrusted}
use cca_go_indexer.Indexer.Unchanged.{Unchanged}
use cca_go_indexer.Registry.{HandlerMap}
use cca_go_indexer.Store.Blocks.{block_hash}
use cca_go_indexer.Store.Rows.{RowsUpTo}
use cca_go_indexer.Types.{Codec, Log, zero_hash}
use cca_go_indexer.World.Calls.{Env, World, FilterQuery, block_number}
use cca_go_indexer.World.Database.{Database}
use cca_go_indexer.World.Healthy.{IsHealthy}

-- What the node answers from some time on: it stays on one of the chains, every call succeeds, the
-- handlers take the chain's logs, a batch has at least one block, and some block is confirmed.
pub record Standing ⦃c : Codec⦄ (f : Formats) (cfg : IndexerConfig) (chains : Chains) (env : Env)
    (registry : HandlerMap) : Type 0 where
  pub chain : Chain
  pub possible : chains.Possible chain
  pub still : IsStill f env cfg registry chain
  pub trusted : IsTrusted env cfg registry
  pub head : ℕ
  pub logs : FilterQuery → List Log
  pub healthy : IsHealthy env head chain.header logs
  pub handles : HandlesLogs env cfg registry head chain.header logs healthy
  pub batches : 0 < cfg.block_batch_size
  pub confirmed : cfg.confirmations ≤ head

module _ ⦃c : Codec⦄ (f : Formats) (cfg : IndexerConfig) (chains : Chains) (before : Database)
    (rows : RowsUpTo cfg.chain_id 0 before)
    (no_genesis : block_hash cfg.chain_id 0 before ≡ zero_hash) (env : Env) (registry : HandlerMap)
    (node : Standing f cfg chains env registry) where
  abbrev pub safe_head : ℕ
  safe_head = node.head - cfg.confirmations

  abbrev pub IndexOf : Chain → ℕ → Database → Type 0
  IndexOf = IsIndexOf f cfg chains (base f cfg chains before) before rows

  IsIndexOf-IsCurrent :
      (n : ℕ) (db : Database)
      → IndexOf node.chain n db
      → IsCurrent env cfg registry node.head node.chain.header node.logs node.healthy n db
  IsIndexOf-IsCurrent n db p = elim (Bool-cases (ltb p.from n)) [
    | inl low ↦ inr (
        IsIndexOf-block_hash f cfg chains (base f cfg chains before) before rows node.chain n n db p
          (ground arith) (omega arith))
    | inr high ↦ inl (
        IsIndexOf-no_hash f cfg chains (base f cfg chains before) before rows node.chain n db p
          no_genesis (ground arith) n)
  ]

  -- The loop goes on at a higher block, or at the safe head, with the index of the node's chain.
  abbrev Advances : ℕ → Exit × World → Type 0
  Advances n (continue_with k, w) =
      IndexOf node.chain k.cursor w.db × (k.cursor ≤ safe_head) × (min (n + 1) safe_head ≤ k.cursor)
  Advances n (return_error e, w) = ⊥
  Advances n (panic, w) = ⊥

  batch-Advances :
      (l : Loop) (db : Database) (r : Result Exit Loop × World)
      → l.cursor < safe_head
      → Succeeds
          (λ k _. k ≡ record {
            cursor = min (l.cursor + cfg.block_batch_size) safe_head;
            consecutive_errors = 0;
          })
          r
      → Ends
          (Follows f cfg chains
            (base f cfg chains before)
            before
            rows
            env
            registry
            node.chain
            node.possible
            node.still
            node.trusted)
          (Unchanged l db)
          r
      → Advances l.cursor (next_round env cfg registry r)
  batch-Advances l db (ok k, w) below e p =
      let at_end : k.cursor ≡ min (l.cursor + cfg.block_batch_size) safe_head =
        ap (λ j. j.cursor) e in
      (p.0, ground arith, ground arith)
  batch-Advances l db (err x, w) below never p = absurd never

  idle-Advances :
      (l : Loop) (w : World)
      → l.cursor ≡ safe_head
      → IndexOf node.chain l.cursor w.db
      → Advances l.cursor (next_round env cfg registry (round env cfg registry l w))
  unfolding round check_done block_number pause
  idle-Advances l w e p =
      let deep : ltb node.head cfg.confirmations ≡ false = ground arith in
      let at_head : leb safe_head l.cursor ≡ true = ground arith in
      rw
        (
          node.healthy.running w.now,
          node.healthy.head_answers (suc w.now),
          deep,
          at_head,
          node.healthy.running (suc (suc w.now)),
        )
        (p, omega arith, ground arith)

  round-Advances :
      (l : Loop) (w : World)
      → l.cursor ≤ safe_head
      → IndexOf node.chain l.cursor w.db
      → Advances l.cursor (next_round env cfg registry (round env cfg registry l w))
  round-Advances l w h p = elim (Bool-cases (ltb l.cursor safe_head)) [
    | inl e ↦
        batch-Advances l w.db (round env cfg registry l w) (ground arith)
          (round-Succeeds env cfg registry node.head node.chain.header node.logs node.healthy
            node.handles l w node.batches node.trusted.batch_size
            (node.trusted.heads w.now node.head (node.healthy.head_answers w.now)) node.confirmed
            (ground arith) (IsIndexOf-IsCurrent l.cursor w.db p))
          (round-Follows f cfg chains (base f cfg chains before) before rows env registry node.chain
            node.possible node.still node.trusted l w (node.chain, node.possible, p))
    | inr e ↦ idle-Advances l w (ground arith) p
  ]

  -- The loop is at the safe head, and the tables are the index of the node's chain up to it.
  abbrev pub IsSettled : Exit × World → Type 0
  IsSettled (continue_with k, w) = (k.cursor ≡ safe_head) × IndexOf node.chain safe_head w.db
  IsSettled (return_error e, w) = ⊥
  IsSettled (panic, w) = ⊥

  go_on-IsSettled :
      (n m : ℕ) (x : Exit × World)
      → ((k : Loop) (w : World)
          → k.cursor ≤ safe_head
          → IndexOf node.chain k.cursor w.db
          → safe_head ≤ k.cursor + n
          → IsSettled (run_rounds env cfg registry n k w))
      → safe_head ≤ m + suc n
      → Advances m x
      → IsSettled (go_on (run_rounds env cfg registry n) x)
  go_on-IsSettled n m (continue_with k, w) ih h (p, low, higher) = ih k w low p (ground arith)
  go_on-IsSettled n m (return_error e, w) ih h never = absurd never
  go_on-IsSettled n m (panic, w) ih h never = absurd never

  -- On the chain that is indexed, as many rounds as there are blocks up to the safe head index them.
  pub run_rounds-IsSettled :
      (n : ℕ) (l : Loop) (w : World)
      → l.cursor ≤ safe_head
      → IndexOf node.chain l.cursor w.db
      → safe_head ≤ l.cursor + n
      → IsSettled (run_rounds env cfg registry n l w)
  unfolding run_rounds
  run_rounds-IsSettled zero l w low p h =
      let e : l.cursor ≡ safe_head = omega arith in (e, subst (λ k. IndexOf node.chain k w.db) e p)
  run_rounds-IsSettled (suc n) l w low p h =
      go_on-IsSettled n l.cursor (next_round env cfg registry (round env cfg registry l w))
        (run_rounds-IsSettled n) h (round-Advances l w low p)
