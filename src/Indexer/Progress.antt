-- ===== src/Indexer/Progress.antt =====
-- That a round advances where every call succeeds (`ChainIndexer.Run` in internal/indexer/indexer.go).
use cca_go_indexer.Base.{
  ℕ, suc, ◌+◌, ◌-◌, ◌<◌, ◌≤◌, ◌≡◌, refl, ◌⊎◌, inl, inr, false, List, arith, leb, ltb, u64, sub64,
  min, ◌==◌, ==_self, Bool-cases,
}
use cca_go_indexer.Base.Effect.{Ends-weaken}
use cca_go_indexer.Headers.{fetch_headers}
use cca_go_indexer.Headers.Slots.{SlotFilled, fetch_headers-SlotFilled}
use cca_go_indexer.Indexer.{
  IndexerConfig, Loop, check_done, attempt, store_batch, process_batch, batch_query, index, round,
}
use cca_go_indexer.Indexer.BatchRound.{count_lem, small_count}
use cca_go_indexer.Indexer.Trusted.{bigint_size}
use cca_go_indexer.Registry.{HandlerMap}
use cca_go_indexer.Reorg.{detect_reorg}
use cca_go_indexer.Store.Blocks.{block_hash}
use cca_go_indexer.Types.{BlockHeader, Codec, Log, zero_hash}
use cca_go_indexer.World.Calls.{
  Env, World, FilterQuery, query, tick, block_number, filter_logs, header_by_number,
}
use cca_go_indexer.World.Database.{Database}
use cca_go_indexer.World.Errors.{fetching_headers, executing_batch, detect_reorg_at}
use cca_go_indexer.World.Healthy.{IsHealthy}
use cca_go_indexer.World.Tx.{with_tx}
use cca_go_indexer.Indexer.Commits.{
  Succeeds, HandlesLogs, and_then-Succeeds, attempt-Succeeds, store_batch-Succeeds,
  with_tx-Succeeds,
}

module _ ⦃c : Codec⦄ (env : Env) (cfg : IndexerConfig) (registry : HandlerMap) (head : ℕ)
    (header : ℕ → BlockHeader) (logs : FilterQuery → List Log)
    (healthy : IsHealthy env head header logs) where
  -- The stored hash of the block is the chain's, or there is none.
  abbrev pub IsCurrent : ℕ → Database → Type 0
  IsCurrent n db =
      (block_hash cfg.chain_id n db ≡ zero_hash) ⊎ (block_hash cfg.chain_id n db ≡ (header n).hash)

  pub detect-Succeeds :
      (n : ℕ) (w : World)
      → IsCurrent n w.db
      → Succeeds (λ b _. b ≡ false) (detect_reorg env cfg.chain_id n w)
  unfolding detect_reorg query header_by_number
  detect-Succeeds n w current = elim (Bool-cases (n == 0)) [
    | inl e ↦ rw e refl
    | inr e ↦
        rw (e, healthy.statements w.now)
          (elim (Bool-cases (block_hash cfg.chain_id n w.db == zero_hash)) [
            | inl z ↦ rw z refl
            | inr z ↦
                rw (z, healthy.header_answers (suc w.now) n)
                  (elim current [
                    | inl none_stored ↦ absurd (ground arith)
                    | inr same ↦ rw (same, ==_self (header n).hash) refl
                  ])
          ])
  ]

  index_lem : (n to : ℕ) → n < to → to < bigint_size → sub64 to (n + 1) ≡ to - (n + 1)
  index_lem n to h k = omega arith

  fetch-Succeeds :
      (from count : ℕ) (w : World)
      → Succeeds
          (λ hs _. (i : ℕ) → i < count → SlotFilled (env.header_at w.now) from hs i)
          (fetch_headers env from count w)
  fetch-Succeeds from count w =
      Ends-weaken _ _ _ _ (fetch_headers env from count w) (λ _ _ (_, _, slots). slots)
        (λ _ _ (_, (i, _, missing)). cc (healthy.header_answers w.now (from + i)))
        (fetch_headers-SlotFilled env from count w)

  index-Succeeds :
      (t n to : ℕ) (hs : List BlockHeader) (w : World)
      → n < to
      → to < bigint_size
      → ((i : ℕ) → i < to - n → SlotFilled (env.header_at t) (n + 1) hs i)
      → Succeeds (λ _ _. Unit {0}) (index env cfg registry hs (sub64 to (n + 1)) w)
  index-Succeeds t n to hs w h k slots =
      let (g, _, e) = slots (to - (n + 1)) (omega arith) in rw (index_lem n to h k, e, index) tt

  -- A batch of at least one block is stored, and the loop goes on from its last block.
  process_batch-Succeeds :
      HandlesLogs env cfg registry head header logs healthy
      → (l : Loop) (to : ℕ) (w : World) → l.cursor < to
      → to < bigint_size
      → Succeeds
          (λ k _. k ≡ record { cursor = to; consecutive_errors = 0 })
          (process_batch env cfg registry l (l.cursor + 1) to w)
  unfolding process_batch filter_logs
  process_batch-Succeeds handles l to w h k =
      rw
        (
          healthy.log_answers w.now query,
          count_lem l.cursor to (omega arith) k,
          small_count l.cursor to k,
        )
        (and_then-Succeeds _ _
          (attempt env l fetching_headers (fetch_headers env (l.cursor + 1) (to - l.cursor))
            (tick w))
          _
          (attempt-Succeeds env cfg registry head header logs healthy _ l fetching_headers
            (fetch_headers env (l.cursor + 1) (to - l.cursor) (tick w))
            (fetch-Succeeds (l.cursor + 1) (to - l.cursor) (tick w)))
          (λ hs w1 slots.
            and_then-Succeeds _ _ (index env cfg registry hs (sub64 to (l.cursor + 1)) w1) _
              (index-Succeeds (suc w.now) l.cursor to hs w1 h k slots)
              (λ last w2 _.
                and_then-Succeeds (λ _ _. Unit {0}) _
                  (attempt env l executing_batch
                    (with_tx env
                      (store_batch env cfg registry (l.cursor + 1) to (logs query) hs last.hash))
                    w2)
                  _
                  (attempt-Succeeds env cfg registry head header logs healthy _ l executing_batch
                    (with_tx env
                      (store_batch env cfg registry (l.cursor + 1) to (logs query) hs last.hash) w2)
                    (with_tx-Succeeds env cfg registry head header logs healthy
                      (store_batch env cfg registry (l.cursor + 1) to (logs query) hs last.hash) w2
                      (store_batch-Succeeds env cfg registry head header logs healthy handles
                        (l.cursor + 1) to query hs last.hash (tick w2))))
                  (λ _ _ _. refl))))
    where
      query : FilterQuery
      query = batch_query env cfg registry (l.cursor + 1) to

  pub next_cursor : (n to : ℕ) → n < to → to < bigint_size → u64 (n + 1) ≡ n + 1
  next_cursor n to h k = omega arith

  batch_end :
      (n safe : ℕ)
      → n < safe
      → safe < bigint_size
      → cfg.block_batch_size < bigint_size
      → min (u64 (n + cfg.block_batch_size)) safe ≡ min (n + cfg.block_batch_size) safe
  batch_end n safe h k b = ground arith

  pub above_guard : (n safe : ℕ) → n < safe → leb safe n ≡ false
  above_guard n safe h = ground arith

  -- Below the safe head, and on the chain, a round indexes a batch: it ends at the batch's last
  -- block, and counts no errors.
  pub round-Succeeds :
      HandlesLogs env cfg registry head header logs healthy
      → (l : Loop) (w : World) → 0 < cfg.block_batch_size
      → cfg.block_batch_size < bigint_size
      → head < bigint_size
      → cfg.confirmations ≤ head
      → l.cursor < head - cfg.confirmations
      → IsCurrent l.cursor w.db
      → Succeeds
          (λ k _. k ≡ record {
            cursor = min (l.cursor + cfg.block_batch_size) (head - cfg.confirmations);
            consecutive_errors = 0;
          })
          (round env cfg registry l w)
  unfolding round check_done block_number
  round-Succeeds handles l w pos small heads confirmed below current =
      rw
        (
          healthy.running w.now,
          healthy.head_answers (suc w.now),
          deep,
          above_guard l.cursor (head - cfg.confirmations) below,
        )
        (and_then-Succeeds (λ b _. b ≡ false) _
          (attempt env l (detect_reorg_at l.cursor) (detect_reorg env cfg.chain_id l.cursor)
            (tick (tick w)))
          _
          (attempt-Succeeds env cfg registry head header logs healthy _ l (detect_reorg_at l.cursor)
            (detect_reorg env cfg.chain_id l.cursor (tick (tick w)))
            (detect-Succeeds l.cursor (tick (tick w)) current))
          (λ b w1 no.
            rw
              (
                no,
                next_cursor l.cursor (head - cfg.confirmations) below (omega arith),
                batch_end l.cursor (head - cfg.confirmations) below (omega arith) small,
              )
              (process_batch-Succeeds handles l
                (min (l.cursor + cfg.block_batch_size) (head - cfg.confirmations)) w1 (ground arith)
                (ground arith))))
    where
      deep : ltb head cfg.confirmations ≡ false
      deep = ground arith
