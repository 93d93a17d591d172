-- ===== src/Indexer/Commits.antt =====
-- That the transaction of a batch succeeds where every call does (`ChainIndexer.Run` in
-- internal/indexer/indexer.go).
use cca_go_indexer.Base.{ℕ, ◌+◌, List, [], ◌∷◌}
use cca_go_indexer.Base.Effect.{Result, ok, err, Ends, Ends-and_then, and_then}
use cca_go_indexer.Indexer.{IndexerConfig, Loop, attempt_outcome, insert_blocks, store_batch}
use cca_go_indexer.Registry.{HandlerMap, handle_logs}
use cca_go_indexer.Store.Cursors
use cca_go_indexer.Types.{BlockHeader, Codec, Hash, Log}
use cca_go_indexer.World.Calls.{Env, World, Action, FilterQuery, exec, tick, wrap, wrap_outcome}
use cca_go_indexer.World.Errors.{Error, Operation, handling_logs, upserting_cursor}
use cca_go_indexer.World.Healthy.{IsHealthy}
use cca_go_indexer.World.Tx.{with_tx, end_tx}

-- The computation ends with a value of which `Q` holds.
abbrev pub Succeeds : {E A : Type 0} → (A → World → Type 0) → Result E A × World → Type 0
Succeeds Q r = Ends Q (λ _ _. ⊥) r

pub and_then-Succeeds :
    {E A B : Type 0} (Q : A → World → Type 0) (Q' : B → World → Type 0) (r : Result E A × World)
    (f : A → World → Result E B × World)
    → Succeeds Q r
    → ((a : A) (w : World) → Q a w → Succeeds Q' (f a w))
    → Succeeds Q' (and_then r f)
and_then-Succeeds Q Q' r f h k = Ends-and_then Q Q' (λ _ _. ⊥) r f h k

pub wrap-Succeeds :
    {A : Type 0} (Q : A → World → Type 0) (o : Operation) (r : Result Error A × World)
    → Succeeds Q r
    → Succeeds Q (wrap_outcome o r)
wrap-Succeeds Q o (ok a, w) h = h
wrap-Succeeds Q o (err e, w) h = h

module _ ⦃c : Codec⦄ (env : Env) (cfg : IndexerConfig) (registry : HandlerMap) (head : ℕ)
    (header : ℕ → BlockHeader) (logs : FilterQuery → List Log)
    (healthy : IsHealthy env head header logs) where
  -- The handlers take the chain's logs, whatever the database.
  abbrev pub HandlesLogs : Type 0
  HandlesLogs =
      (q : FilterQuery) (w : World)
      → Succeeds (λ _ _. Unit {0}) (handle_logs registry cfg.chain_id (logs q) w)

  pub attempt-Succeeds :
      {A : Type 0} (Q : A → World → Type 0) (l : Loop) (o : Operation) (r : Result Error A × World)
      → Succeeds Q r
      → Succeeds Q (attempt_outcome env l o r)
  attempt-Succeeds Q l o (ok a, w) h = h
  attempt-Succeeds Q l o (err e, w) h = absurd h

  insert_blocks-Succeeds :
      (n : ℕ) (hs : List BlockHeader) (w : World)
      → Succeeds (λ _ _. Unit {0}) (insert_blocks env cfg registry n hs w)
  unfolding insert_blocks exec
  insert_blocks-Succeeds n [] w = tt
  insert_blocks-Succeeds n (h ∷ hs) w =
      rw (healthy.statements w.now) (insert_blocks-Succeeds (n + 1) hs _)

  save-Succeeds :
      (to : ℕ) (last : Hash) (w : World)
      → Succeeds (λ _ _. Unit {0}) (wrap upserting_cursor (Cursors.save env cfg.chain_id to last) w)
  unfolding exec
  save-Succeeds to last w = rw (healthy.statements w.now) tt

  pub store_batch-Succeeds :
      HandlesLogs
      → (from to : ℕ) (q : FilterQuery) (hs : List BlockHeader) (last : Hash) (w : World)
      → Succeeds (λ _ _. Unit {0}) (store_batch env cfg registry from to (logs q) hs last w)
  unfolding store_batch
  store_batch-Succeeds handles from to q hs last w =
      and_then-Succeeds (λ _ _. Unit {0}) _
        (wrap handling_logs (handle_logs registry cfg.chain_id (logs q)) w) _
        (wrap-Succeeds _ handling_logs (handle_logs registry cfg.chain_id (logs q) w) (handles q w))
        (λ _ w1 _.
          and_then-Succeeds (λ _ _. Unit {0}) _ (insert_blocks env cfg registry from hs w1) _
            (insert_blocks-Succeeds from hs w1) (λ _ w2 _. save-Succeeds to last w2))

  pub with_tx-Succeeds :
      (fn : Action (Unit {0})) (w : World)
      → Succeeds (λ _ _. Unit {0}) (fn (tick w))
      → Succeeds (λ _ _. Unit {0}) (with_tx env fn w)
  unfolding with_tx
  with_tx-Succeeds fn w h = rw (healthy.begins w.now) (commits (fn (tick w)) h)
    where
      commits :
          (r : Result Error (Unit {0}) × World)
          → Succeeds (λ _ _. Unit {0}) r
          → Succeeds (λ _ _. Unit {0}) (end_tx env w.db r)
      commits (ok a, v) k = rw (healthy.commits v.now) tt
      commits (err e, v) k = k
