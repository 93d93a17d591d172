-- ===== src/Indexer/Still.antt =====
-- What a batch adds to the tables while the chain stands still (`ChainIndexer.Run` in
-- internal/indexer/indexer.go), whatever fails.
use cca_go_indexer.Base.{
  ℕ, zero, suc, ◌+◌, ◌<◌, ◌≡◌, refl, ap, ap₂, ◌∙◌, inl, inr, some, List, [], ◌∷◌, arith, All,
  All-append, length, Bool-cases,
}
use mathlib.Core.Path.{subst}
use cca_go_indexer.AuctionCreated.{Formats, auction_created_handler}
use cca_go_indexer.Base.Effect.{Ends, Ends-and_then, Ends-weaken}
use cca_go_indexer.Headers.{fetch_headers}
use cca_go_indexer.Headers.Slots.{SlotFilled, fetch_headers-SlotFilled}
use cca_go_indexer.Indexer.{IndexerConfig, insert_blocks, store_batch, batch_query}
use cca_go_indexer.Indexer.Entries.{handle_logs-index_logs}
use cca_go_indexer.Indexer.Index.{
  Chain, logs_from, headers_from, tables, index_logs, index_blocks, insert_headers,
  insert_headers-index_logs,
}
use cca_go_indexer.Registry.{HandlerMap, handle_logs, lookup_handler}
use cca_go_indexer.Registry.Single.{HasTopic}
use cca_go_indexer.Store.Blocks.{insert_block}
use cca_go_indexer.Store.Cursors
use cca_go_indexer.Store.Cursors.{upsert_cursor, stored_cursor, stored_cursor-upsert_cursor}
use cca_go_indexer.Types.{BlockHeader, Codec, Hash, Log}
use cca_go_indexer.World.Calls.{Env, World, wrap, wrap-Ends, exec}
use cca_go_indexer.World.Errors.{handling_logs, upserting_cursor}

-- The node answers, where it does, of a chain that stands still; the watched event's handler is
-- registered, and the node returns the logs that match a query, by block.
pub record IsStill ⦃c : Codec⦄ (f : Formats) (env : Env) (cfg : IndexerConfig)
    (registry : HandlerMap) (ch : Chain) : Type 0 where
  pub found : lookup_handler f.event_id registry ≡ some (auction_created_handler f env)
  pub watched : (n : ℕ) → All (HasTopic f.event_id) (ch.block_logs n)
  pub headers : (t n : ℕ) (h : BlockHeader) → env.header_at t n ≡ some h → h ≡ ch.header n
  pub logs :
      (t from to count : ℕ) (ls : List Log)
      → from + count ≡ to + 1
      → env.logs_at t (batch_query env cfg registry from to) ≡ some ls
      → ls ≡ logs_from ch from count

module _ ⦃c : Codec⦄ (f : Formats) (env : Env) (cfg : IndexerConfig) (registry : HandlerMap)
    (ch : Chain) (still : IsStill f env cfg registry ch) where
  logs_from-HasTopic : (from count : ℕ) → All (HasTopic f.event_id) (logs_from ch from count)
  unfolding logs_from
  logs_from-HasTopic from zero = tt
  logs_from-HasTopic from (suc count) =
      All-append (HasTopic f.event_id) (ch.block_logs from) (logs_from ch (from + 1) count)
        (still.watched from) (logs_from-HasTopic (from + 1) count)

  insert_blocks-insert_headers :
      (n : ℕ) (hs : List BlockHeader) (w : World)
      → Ends
          (λ _ w'. w'.db ≡ insert_headers f cfg.chain_id n hs w.db)
          (λ _ _. Unit {0})
          (insert_blocks env cfg registry n hs w)
  unfolding insert_blocks insert_headers exec
  insert_blocks-insert_headers n [] w = refl
  insert_blocks-insert_headers n (h ∷ hs) w = elim (Bool-cases (env.statement_fails w.now)) [
    | inl e ↦ rw e tt
    | inr e ↦ rw e (
        insert_blocks-insert_headers (n + 1) hs
          (record { db = insert_block cfg.chain_id n h.hash h.parent_hash w.db; now = suc w.now }))
  ]

  save-tables :
      (to : ℕ) (last : Hash) (w : World)
      → Ends
          (λ _ w'. (tables w'.db ≡ tables w.db) × ((stored_cursor cfg.chain_id w'.db).0 ≡ to))
          (λ _ _. Unit {0})
          (wrap upserting_cursor (Cursors.save env cfg.chain_id to last) w)
  unfolding exec
  save-tables to last w = elim (Bool-cases (env.statement_fails w.now)) [
    | inl e ↦ rw e tt
    | inr e ↦ rw e (
      (unfold upsert_cursor in refl),
      ap (λ k. k.0) (stored_cursor-upsert_cursor cfg.chain_id to last w.db),
    )
  ]

  -- The transaction of a batch adds the index of its blocks and puts the cursor at its end, where it
  -- succeeds.
  pub store_batch-index_blocks :
      (from to count : ℕ) (last : Hash) (w : World)
      → Ends
          (λ _ w'.
            (tables w'.db ≡ tables (index_blocks f cfg.chain_id ch from count w.db))
            × ((stored_cursor cfg.chain_id w'.db).0 ≡ to))
          (λ _ _. Unit {0})
          (store_batch env cfg registry from to
            (logs_from ch from count)
            (headers_from ch from count)
            last
            w)
  unfolding store_batch
  store_batch-index_blocks from to count last w =
      Ends-and_then (λ _ w1. w1.db ≡ index_logs f cfg.chain_id (logs_from ch from count) w.db) _ _
        (wrap handling_logs (handle_logs registry cfg.chain_id (logs_from ch from count)) w) _
        (wrap-Ends handling_logs _ _ (handle_logs registry cfg.chain_id (logs_from ch from count) w)
          (handle_logs-index_logs f env cfg.chain_id registry (logs_from ch from count) w
            still.found (logs_from-HasTopic from count)))
        (λ _ w1 e1.
          Ends-and_then
            (λ _ w2. w2.db ≡ insert_headers f cfg.chain_id from (headers_from ch from count) w1.db)
            _ _ (insert_blocks env cfg registry from (headers_from ch from count) w1) _
            (insert_blocks-insert_headers from (headers_from ch from count) w1)
            (λ _ w2 e2.
              Ends-weaken _ _ _ _ (wrap upserting_cursor (Cursors.save env cfg.chain_id to last) w2)
                (λ _ w3 (e3, saved). (
                  e3
                      ∙ ap tables (
                          e2
                          ∙ ap (insert_headers f cfg.chain_id from (headers_from ch from count)) e1
                          ∙ insert_headers-index_logs f cfg.chain_id ch count from w.db),
                  saved,
                ))
                (λ _ _ u. u) (save-tables to last w2)))

  slots-headers_from :
      (t from count : ℕ) (hs : List BlockHeader)
      → length hs ≡ count
      → ((i : ℕ) → i < count → SlotFilled (env.header_at t) from hs i)
      → hs ≡ headers_from ch from count
  unfolding headers_from
  slots-headers_from t from zero [] len slots = refl
  slots-headers_from t from zero (h ∷ hs) len slots = absurd (omega arith)
  slots-headers_from t from (suc count) [] len slots = absurd (omega arith)
  slots-headers_from t from (suc count) (h ∷ hs) len slots =
      let (g, answered, here) = slots 0 (omega arith) in
      let same : h ≡ g = ground arith in
      let first : h ≡ ch.header from =
        same ∙ still.headers t (from + 0) g answered ∙ ap ch.header (omega arith) in
      ap₂ ◌∷◌ first (
        slots-headers_from t (from + 1) count hs (omega arith) (λ i k.
          let (g', answered', there) = slots (suc i) (omega arith) in
          (g', subst (λ n. env.header_at t n ≡ some g') (omega arith) answered', there)))

  -- The fetched headers are the chain's.
  pub fetch_headers-headers_from :
      (from count : ℕ) (w : World)
      → Ends
          (λ hs w'. (hs ≡ headers_from ch from count) × (w'.db ≡ w.db))
          (λ _ w'. w'.db ≡ w.db)
          (fetch_headers env from count w)
  fetch_headers-headers_from from count w =
      Ends-weaken _ _ _ _ (fetch_headers env from count w)
        (λ hs w' (same, len, slots). (slots-headers_from w.now from count hs len slots, same))
        (λ _ w' r. r.0) (fetch_headers-SlotFilled env from count w)
