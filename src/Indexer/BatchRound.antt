-- ===== src/Indexer/BatchRound.antt =====
-- The part of a round of `ChainIndexer.Run` that indexes a batch (internal/indexer/indexer.go).
use cca_go_indexer.Base.{
  ℕ, ◌+◌, ◌-◌, ◌<◌, ◌≤◌, ◌≡◌, refl, ap, sym, ◌∙◌, inl, inr, false, List, arith, length, leb, u64,
  sub64, get_elem?, Bool-cases, Option-cases,
}
use mathlib.Core.Path.{subst}
use cca_go_indexer.Base.Effect.{Ends, Ends-and_then, Ends-weaken, ◌>>=◌, ◌>>◌, pure}
use cca_go_indexer.Headers.{fetch_headers}
use cca_go_indexer.Headers.Slots.{SlotFilled, fetch_headers-SlotFilled}
use cca_go_indexer.Indexer.{
  IndexerConfig, Loop, Exit, attempt, process_batch, batch_query, store_batch, index,
}
use cca_go_indexer.Indexer.Batch.{IsStored, store_batch-IsStored}
use cca_go_indexer.Indexer.Invariant.{
  IsConsistent, IsConsistent-RowsUpTo, IsConsistent-IsResumable, Keeps, attempt-Keeps,
  filter_logs_reads,
}
use cca_go_indexer.Indexer.Trusted.{IsTrusted, bigint_size}
use cca_go_indexer.Registry.{HandlerMap}
use cca_go_indexer.Registry.Dispatch.{LogsUpTo}
use cca_go_indexer.Reorg.Search.{Agrees}
use cca_go_indexer.Store.Rows.{RowsUpTo}
use cca_go_indexer.Types.{BlockHeader, Codec, Hash, Log}
use cca_go_indexer.World.Calls.{Env, World, FilterQuery, tick, filter_logs}
use cca_go_indexer.World.Database.{Database}
use cca_go_indexer.World.Errors.{filter_logs as filtering_logs, fetching_headers, executing_batch}
use cca_go_indexer.World.Tx.{with_tx, with_tx_atomic}

pub count_lem : (c to : ℕ) → c ≤ to → to < bigint_size → u64 (sub64 to (c + 1) + 1) ≡ to - c
count_lem c to h k = omega arith

pub small_count : (c to : ℕ) → to < bigint_size → leb bigint_size (to - c) ≡ false
small_count c to h = ground arith

module _ ⦃c : Codec⦄ (env : Env) (cfg : IndexerConfig) (registry : HandlerMap)
    (trusted : IsTrusted env cfg registry) (floor : ℕ) where
  abbrev Cons : ℕ → Database → Type 0
  Cons = IsConsistent env cfg.chain_id floor

  abbrev KeepsIt : Exit → World → Type 0
  KeepsIt = Keeps env cfg.chain_id floor

  -- The next round begins with a consistent store.
  abbrev KeepsLoop : Loop → World → Type 0
  KeepsLoop l w = Cons l.cursor w.db

  IsStored-IsConsistent :
      (n to t : ℕ) (hs : List BlockHeader) (last : Hash) (db db' : Database)
      → n ≤ to
      → Cons n db
      → ((i : ℕ) → i < to - n → SlotFilled (env.header_at t) (n + 1) hs i)
      → IsStored env cfg registry (n + 1) to hs last db db'
      → Cons to db'
  IsStored-IsConsistent n to t hs last db db' le p slots s = record {
    rows = subst (λ k. RowsUpTo cfg.chain_id k db') (sym (ap (λ k. k.0) s.cursor)) s.rows;
    persisted = inl (ap (λ k. k.0) s.cursor);
    hashes = λ k f h. elim (Bool-cases (leb k n)) [
      | inl old ↦
          let (t', g, e, q) = p.hashes k f (ground arith) in
          (t', g, e, s.below k (ground arith) ∙ q)
      | inr new ↦ new_block k (ground arith) h
    ];
  }
    where
      new_block : (k : ℕ) → n < k → k ≤ to → Agrees env cfg.chain_id db' k
      new_block k above below =
          let i = k - (n + 1) in
          let (h, g, q) = slots i (omega arith) in
          subst (Agrees env cfg.chain_id db') (omega arith) (t, h, g, s.stored i h q)

  -- From the transaction of a batch on.
  commit_batch-Keeps :
      (l : Loop) (to t : ℕ) (ls : List Log) (hs : List BlockHeader) (last : Hash) (w : World)
      → l.cursor ≤ to
      → Cons l.cursor w.db
      → LogsUpTo to ls
      → length hs ≡ to - l.cursor
      → ((i : ℕ) → i < to - l.cursor → SlotFilled (env.header_at t) (l.cursor + 1) hs i)
      → Ends KeepsLoop KeepsIt (
          (do
            attempt env l executing_batch
                (with_tx env (store_batch env cfg registry (l.cursor + 1) to ls hs last))
            pure (record { cursor = to; consecutive_errors = 0 }))
            w)
  commit_batch-Keeps l to t ls hs last w le p logs len slots =
      Ends-and_then (λ _ w'. Cons to w'.db) _ _
        (attempt env l executing_batch
          (with_tx env (store_batch env cfg registry (l.cursor + 1) to ls hs last)) w)
        _
        (attempt-Keeps env cfg.chain_id floor (λ _ w'. Cons to w'.db) l executing_batch
          (with_tx env (store_batch env cfg registry (l.cursor + 1) to ls hs last) w)
          (Ends-weaken _ _ _ _
            (with_tx env (store_batch env cfg registry (l.cursor + 1) to ls hs last) w)
            (λ _ w' s. IsStored-IsConsistent l.cursor to t hs last w.db w'.db le p slots s)
            (λ _ w' same. subst (Cons l.cursor) (sym same) p)
            (with_tx_atomic env
              (λ _ db'. IsStored env cfg registry (l.cursor + 1) to hs last w.db db')
              (store_batch env cfg registry (l.cursor + 1) to ls hs last) w trusted.commits
              (store_batch-IsStored env cfg registry l.cursor to ls hs last (tick w)
                trusted.handlers logs (IsConsistent-RowsUpTo env cfg.chain_id floor l.cursor w.db p)
                le (omega arith)))))
        (λ _ w' q. q)

  index-Keeps :
      (n : ℕ) (hs : List BlockHeader) (i : ℕ) (w : World)
      → Cons n w.db
      → Ends (λ _ w'. w'.db ≡ w.db) KeepsIt (index env cfg registry hs i w)
  index-Keeps n hs i w p = elim (Option-cases (get_elem? hs i)) [
    | inl e ↦ rw (e, index) (IsConsistent-IsResumable env cfg.chain_id floor n w.db p)
    | inr (h, e) ↦ rw (e, index) refl
  ]

  -- From the request for the headers on.
  fetch_batch-Keeps :
      (l : Loop) (to : ℕ) (ls : List Log) (w : World)
      → l.cursor ≤ to
      → Cons l.cursor w.db
      → LogsUpTo to ls
      → Ends KeepsLoop KeepsIt (
          (do
            headers ←
                attempt env l fetching_headers (fetch_headers env (l.cursor + 1) (to - l.cursor))
            last ← index env cfg registry headers (sub64 to (l.cursor + 1))
            attempt env l executing_batch
                (with_tx env (store_batch env cfg registry (l.cursor + 1) to ls headers last.hash))
            pure (record { cursor = to; consecutive_errors = 0 }))
            w)
  fetch_batch-Keeps l to ls w le p logs =
      Ends-and_then
        (λ hs w'.
          (w'.db ≡ w.db)
          × (length hs ≡ to - l.cursor)
          × ((i : ℕ) → i < to - l.cursor → SlotFilled (env.header_at w.now) (l.cursor + 1) hs i))
        _ _ (attempt env l fetching_headers (fetch_headers env (l.cursor + 1) (to - l.cursor)) w) _
        (attempt-Keeps env cfg.chain_id floor _ l fetching_headers
          (fetch_headers env (l.cursor + 1) (to - l.cursor) w)
          (Ends-weaken _ _ _ _ (fetch_headers env (l.cursor + 1) (to - l.cursor) w) (λ _ _ q. q)
            (λ _ w' q. subst (Cons l.cursor) (sym q.0) p)
            (fetch_headers-SlotFilled env (l.cursor + 1) (to - l.cursor) w)))
        (λ hs w1 (same, len, slots).
          Ends-and_then (λ _ w2. w2.db ≡ w1.db) _ _
            (index env cfg registry hs (sub64 to (l.cursor + 1)) w1) _
            (index-Keeps l.cursor hs (sub64 to (l.cursor + 1)) w1
              (subst (Cons l.cursor) (sym same) p))
            (λ last w2 same'.
              commit_batch-Keeps l to w.now ls hs last.hash w2 le
                (subst (Cons l.cursor) (sym (same' ∙ same)) p) logs len slots))

  pub process_batch-Keeps :
      (l : Loop) (to : ℕ) (w : World)
      → l.cursor ≤ to
      → to < bigint_size
      → Cons l.cursor w.db
      → Ends KeepsLoop KeepsIt (process_batch env cfg registry l (l.cursor + 1) to w)
  unfolding process_batch
  process_batch-Keeps l to w le small p =
      Ends-and_then (λ ls w'. (w'.db ≡ w.db) × LogsUpTo to ls) _ _
        (attempt env l filtering_logs (filter_logs env query) w) _
        (attempt-Keeps env cfg.chain_id floor (λ ls w'. (w'.db ≡ w.db) × LogsUpTo to ls) l
          filtering_logs (filter_logs env query w)
          (Ends-weaken _ _ _ _ (filter_logs env query w)
            (λ ls w' r. (r.0, trusted.logs_in_range w.now query ls r.1))
            (λ _ w' same. subst (Cons l.cursor) (sym same) p)
            (filter_logs_reads env cfg.chain_id floor query w)))
        (λ ls w1 r.
          rw (count_lem l.cursor to le small, small_count l.cursor to small)
            (fetch_batch-Keeps l to ls w1 le (subst (Cons l.cursor) (sym r.0) p) r.1))
    where
      query : FilterQuery
      query = batch_query env cfg registry (l.cursor + 1) to
