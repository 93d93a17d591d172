-- ===== src/Indexer/BatchCommits.antt =====
-- The part of a round of `ChainIndexer.Run` that fetches a batch, while the chain stands still
-- (internal/indexer/indexer.go).
use cca_go_indexer.Base.{
  ℕ, ◌+◌, ◌-◌, ◌<◌, ◌≤◌, ◌≡◌, ◌∙◌, inl, inr, List, arith, Option-cases, sub64, get_elem?,
}
use cca_go_indexer.AuctionCreated.{Formats}
use cca_go_indexer.Base.Effect.{Ends, Ends-and_then, Ends-weaken, pure, ◌>>◌}
use cca_go_indexer.Headers.{fetch_headers}
use cca_go_indexer.Indexer.{
  IndexerConfig, Exit, Round, Loop, attempt, store_batch, process_batch, batch_query, index,
}
use cca_go_indexer.Indexer.BatchRound.{count_lem, small_count}
use cca_go_indexer.Indexer.Index.{Chain, logs_from, headers_from}
use cca_go_indexer.Indexer.Invariant.{filter_logs_reads}
use cca_go_indexer.Indexer.Still.{IsStill, fetch_headers-headers_from}
use cca_go_indexer.Indexer.Trusted.{bigint_size}
use cca_go_indexer.Registry.{HandlerMap}
use cca_go_indexer.Types.{BlockHeader, Codec, Hash}
use cca_go_indexer.World.Calls.{Env, World, filter_logs}
use cca_go_indexer.World.Database.{Database}
use cca_go_indexer.World.Errors.{filter_logs as filtering_logs, fetching_headers, executing_batch}
use cca_go_indexer.World.Tx.{with_tx}
use cca_go_indexer.Indexer.Unchanged.{Unchanged, attempt_next}

module _ ⦃c : Codec⦄ (f : Formats) (env : Env) (cfg : IndexerConfig) (registry : HandlerMap)
    (ch : Chain) (still : IsStill f env cfg registry ch) where
  index-Unchanged :
      (l : Loop) (db : Database) (hs : List BlockHeader) (i : ℕ) (w : World)
      → w.db ≡ db
      → Ends (λ _ w'. w'.db ≡ db) (Unchanged l db) (index env cfg registry hs i w)
  index-Unchanged l db hs i w same = elim (Option-cases (get_elem? hs i)) [
    | inl e ↦ rw (e, index) same
    | inr (h, e) ↦ rw (e, index) same
  ]

  -- What a batch does when its logs and headers are there.
  abbrev pub commit_batch : Loop → ℕ → Hash → Round Loop
  commit_batch l to last = do
    attempt env l executing_batch (
        with_tx env (
          store_batch env cfg registry (l.cursor + 1) to
            (logs_from ch (l.cursor + 1) (to - l.cursor))
            (headers_from ch (l.cursor + 1) (to - l.cursor)) last))
    pure (record { cursor = to; consecutive_errors = 0 })

  -- A batch fetches the chain's logs and headers, and ends as its commit does, or it leaves cursor and
  -- database alone.
  pub process_batch-Commits :
      (R : Loop → World → Type 0) (X : Exit → World → Type 0) (l : Loop) (to : ℕ) (w : World)
      → ((x : Exit) (w' : World) → Unchanged l w.db x w' → X x w')
      → l.cursor ≤ to
      → to < bigint_size
      → ((last : Hash) (w' : World) → w'.db ≡ w.db → Ends R X (commit_batch l to last w'))
      → Ends R X (process_batch env cfg registry l (l.cursor + 1) to w)
  unfolding process_batch
  process_batch-Commits R X l to w enough le small next =
      attempt_next env l w.db X enough
        (λ ls w1. (w1.db ≡ w.db) × (ls ≡ logs_from ch (l.cursor + 1) (to - l.cursor))) _
        filtering_logs (filter_logs env (batch_query env cfg registry (l.cursor + 1) to)) _ w
        (Ends-weaken _ _ _ _ (filter_logs env (batch_query env cfg registry (l.cursor + 1) to) w)
          (λ ls w1 r.
            (r.0, still.logs w.now (l.cursor + 1) to (to - l.cursor) ls (omega arith) r.1))
          (λ _ _ e. e)
          (filter_logs_reads env cfg.chain_id 0 (batch_query env cfg registry (l.cursor + 1) to) w))
        (λ ls w1 (same1, all).
          rw (count_lem l.cursor to le small, small_count l.cursor to small, all)
            (attempt_next env l w.db X enough
              (λ hs w2. (hs ≡ headers_from ch (l.cursor + 1) (to - l.cursor)) × (w2.db ≡ w1.db)) _
              fetching_headers (fetch_headers env (l.cursor + 1) (to - l.cursor)) _ w1
              (Ends-weaken _ _ _ _ (fetch_headers env (l.cursor + 1) (to - l.cursor) w1)
                (λ _ _ r. r) (λ _ _ e. e ∙ same1)
                (fetch_headers-headers_from f env cfg registry ch still (l.cursor + 1)
                  (to - l.cursor) w1))
              (λ hs w2 (fetched, same2). rw fetched (
                Ends-and_then (λ _ w3. w3.db ≡ w.db) _ _
                  (index env cfg registry (headers_from ch (l.cursor + 1) (to - l.cursor))
                    (sub64 to (l.cursor + 1)) w2)
                  _
                  (Ends-weaken _ _ _ _
                    (index env cfg registry (headers_from ch (l.cursor + 1) (to - l.cursor))
                      (sub64 to (l.cursor + 1)) w2)
                    (λ _ _ e. e) enough
                    (index-Unchanged l w.db (headers_from ch (l.cursor + 1) (to - l.cursor))
                      (sub64 to (l.cursor + 1)) w2 (same2 ∙ same1)))
                  (λ last w3 same3. next last.hash w3 same3)))))
