-- ===== src/Indexer/EmptyBatch.antt =====
-- What a round of `ChainIndexer.Run` does with a batch size of 0 (internal/indexer/indexer.go).
use cca_go_indexer.Base.{
  ℕ, suc, ◌+◌, ◌-◌, ◌<◌, ◌≤◌, ◌≡◌, refl, false, List, [], ◌∷◌, arith, length, ltb, u64, sub64, min,
}
use cca_go_indexer.Base.Effect.{Result, Ends, Ends-and_then, Ends-weaken}
use cca_go_indexer.Headers.{fetch_headers}
use cca_go_indexer.Headers.Slots.{fetch_headers-SlotFilled}
use cca_go_indexer.Indexer.{
  IndexerConfig, Loop, Exit, panic, attempt, check_done, process_batch, batch_query, index, round,
}
use cca_go_indexer.Indexer.Commits.{attempt-Succeeds}
use cca_go_indexer.Indexer.Progress.{IsCurrent, detect-Succeeds, next_cursor, above_guard}
use cca_go_indexer.Indexer.Trusted.{bigint_size}
use cca_go_indexer.Registry.{HandlerMap}
use cca_go_indexer.Reorg.{detect_reorg}
use cca_go_indexer.Types.{BlockHeader, Codec, Log}
use cca_go_indexer.World.Calls.{Env, World, FilterQuery, tick, block_number, filter_logs}
use cca_go_indexer.World.Errors.{fetching_headers, detect_reorg_at}
use cca_go_indexer.World.Healthy.{IsHealthy}

-- The computation ends with a panic.
abbrev pub Panics : {A : Type 0} → Result Exit A × World → Type 0
Panics r = Ends (λ _ _. ⊥) (λ x _. x ≡ panic) r

no_count : (n : ℕ) → n + 1 < bigint_size → u64 (sub64 n (n + 1) + 1) ≡ 0
no_count n h = omega arith

module _ ⦃c : Codec⦄ (env : Env) (cfg : IndexerConfig) (registry : HandlerMap) (head : ℕ)
    (header : ℕ → BlockHeader) (logs : FilterQuery → List Log)
    (healthy : IsHealthy env head header logs) where
  index-Panics :
      (hs : List BlockHeader) (i : ℕ) (w : World)
      → length hs ≡ 0
      → Panics (index env cfg registry hs i w)
  index-Panics [] i w h = refl
  index-Panics (g ∷ hs) i w h = absurd (omega arith)

  fetched-none :
      (from : ℕ) (w : World) → Ends (λ hs _. length hs ≡ 0) (λ _ _. ⊥) (fetch_headers env from 0 w)
  fetched-none from w =
      Ends-weaken _ _ _ _ (fetch_headers env from 0 w) (λ _ _ (_, len, _). len)
        (λ _ _ (_, (i, below, _)). absurd (omega arith)) (fetch_headers-SlotFilled env from 0 w)

  process_batch-Panics :
      (l : Loop) (w : World)
      → l.cursor + 1 < bigint_size
      → Panics (process_batch env cfg registry l (l.cursor + 1) l.cursor w)
  unfolding process_batch filter_logs
  process_batch-Panics l w small =
      rw
        (
          healthy.log_answers w.now (batch_query env cfg registry (l.cursor + 1) l.cursor),
          no_count l.cursor small,
        )
        (Ends-and_then (λ hs _. length hs ≡ 0) _ _
          (attempt env l fetching_headers (fetch_headers env (l.cursor + 1) 0) (tick w)) _
          (Ends-weaken _ _ _ _
            (attempt env l fetching_headers (fetch_headers env (l.cursor + 1) 0) (tick w))
            (λ _ _ q. q) (λ _ _ never. absurd never)
            (attempt-Succeeds env cfg registry head header logs healthy _ l fetching_headers
              (fetch_headers env (l.cursor + 1) 0 (tick w)) (fetched-none (l.cursor + 1) (tick w))))
          (λ hs w1 len.
            Ends-and_then (λ _ _. ⊥) _ _
              (index env cfg registry hs (sub64 l.cursor (l.cursor + 1)) w1) _
              (index-Panics hs (sub64 l.cursor (l.cursor + 1)) w1 len) (λ _ _ never. absurd never)))

  -- With a batch size of 0, a round that would index a batch, in the circumstances in which it does
  -- so with another size, panics.
  pub round-Panics :
      (l : Loop) (w : World)
      → cfg.block_batch_size ≡ 0
      → head < bigint_size
      → cfg.confirmations ≤ head
      → l.cursor < head - cfg.confirmations
      → IsCurrent env cfg registry head header logs healthy l.cursor w.db
      → Panics (round env cfg registry l w)
  unfolding round check_done block_number
  round-Panics l w empty heads confirmed below current =
      rw
        (
          healthy.running w.now,
          healthy.head_answers (suc w.now),
          deep,
          above_guard env cfg registry head header logs healthy l.cursor (head - cfg.confirmations)
              below,
        )
        (Ends-and_then (λ b _. b ≡ false) _ _
          (attempt env l (detect_reorg_at l.cursor) (detect_reorg env cfg.chain_id l.cursor)
            (tick (tick w)))
          _
          (Ends-weaken _ _ _ _
            (attempt env l (detect_reorg_at l.cursor) (detect_reorg env cfg.chain_id l.cursor)
              (tick (tick w)))
            (λ _ _ q. q) (λ _ _ never. absurd never)
            (attempt-Succeeds env cfg registry head header logs healthy _ l
              (detect_reorg_at l.cursor) (detect_reorg env cfg.chain_id l.cursor (tick (tick w)))
              (detect-Succeeds env cfg registry head header logs healthy l.cursor (tick (tick w))
                current)))
          (λ b w1 no.
            rw
              (
                no,
                next_cursor env cfg registry head header logs healthy l.cursor
                    (head - cfg.confirmations) below (omega arith),
                at_end,
              )
              (process_batch-Panics l w1 (omega arith))))
    where
      deep : ltb head cfg.confirmations ≡ false
      deep = ground arith

      at_end : min (u64 (l.cursor + cfg.block_batch_size)) (head - cfg.confirmations) ≡ l.cursor
      at_end = ground arith
