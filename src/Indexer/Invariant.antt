-- ===== src/Indexer/Invariant.antt =====
-- What holds between the rounds of `ChainIndexer.Run` (internal/indexer/indexer.go).
use cca_go_indexer.Base.{
  ℕ, ◌+◌, ◌<◌, ◌≤◌, ◌≡◌, refl, ap, sym, ◌∙◌, ◌⊎◌, inl, inr, some, arith, leb, Bool-cases,
}
use mathlib.Core.Path.{subst}
use cca_go_indexer.Base.Effect.{Result, ok, err, Ends}
use cca_go_indexer.Indexer.{
  Loop, Exit, continue_with, return_error, panic, pause, check_done, retry_or_exit, attempt_outcome,
  or_return_outcome, handle_loop_error,
}
use cca_go_indexer.Reorg.Rollback.{IsRecovered}
use cca_go_indexer.Reorg.Search.{Agrees}
use cca_go_indexer.Store.Cursors.{stored_cursor}
use cca_go_indexer.Store.Rows.{RowsUpTo, RowsUpTo-weaken}
use cca_go_indexer.Types.{Codec}
use cca_go_indexer.World.Calls.{Env, World, block_number, filter_logs, FilterQuery}
use cca_go_indexer.World.Database.{Database}
use cca_go_indexer.World.Errors.{Error, Operation}

module _ ⦃c : Codec⦄ (env : Env) (chain floor : ℕ) where
  -- The store, between rounds at a cursor: no row of the chain is above the stored cursor, which is
  -- the loop's, or 0 while the loop's is no higher than the floor; and every block above the floor up
  -- to the loop's cursor has a hash that the node has answered.
  pub record IsConsistent (cursor : ℕ) (db : Database) : Type 0 where
    pub rows : RowsUpTo chain (stored_cursor chain db).0 db
    pub persisted :
        ((stored_cursor chain db).0 ≡ cursor)
        ⊎ (((stored_cursor chain db).0 ≡ 0) × (cursor ≤ floor))
    pub hashes : (n : ℕ) → floor < n → n ≤ cursor → Agrees env chain db n

  -- The store is consistent with its own cursor, from which `Run` starts.
  abbrev pub IsResumable : Database → Type 0
  IsResumable db = IsConsistent (stored_cursor chain db).0 db

  pub IsConsistent-RowsUpTo : (n : ℕ) (db : Database) → IsConsistent n db → RowsUpTo chain n db
  IsConsistent-RowsUpTo n db p =
      RowsUpTo-weaken chain (stored_cursor chain db).0 n db (omega arith) p.rows

  pub IsConsistent-IsResumable : (n : ℕ) (db : Database) → IsConsistent n db → IsResumable db
  IsConsistent-IsResumable n db p = record {
    rows = p.rows;
    persisted = inl refl;
    hashes = λ k f h. p.hashes k f (omega arith);
  }

  -- What holds where a round ends: the loop goes on with a cursor that the store is consistent with,
  -- or it has ended and the store is one to resume from.
  abbrev pub Keeps : Exit → World → Type 0
  Keeps (continue_with l) w = IsConsistent l.cursor w.db
  Keeps (return_error e) w = IsResumable w.db
  Keeps panic w = IsResumable w.db

  -- A rollback to a block that is kept leaves a consistent store.
  pub IsRecovered-IsConsistent :
      (b a : ℕ) (db db' : Database)
      → IsConsistent b db
      → IsRecovered chain env b a db db'
      → IsConsistent a db'
  IsRecovered-IsConsistent b a db db' p r = record {
    rows = subst (λ n. RowsUpTo chain n db') (sym (ap (λ k. k.0) r.rolled.cursor)) r.rolled.rows;
    persisted = inl (ap (λ k. k.0) r.rolled.cursor);
    hashes = λ n f h.
        let (t, g, e, s) = p.hashes n f (omega (arith, r.at_most)) in
        (t, g, e, r.rolled.hashes n h ∙ s);
  }

  pub pause-Keeps :
      {A : Type 0} (Q : A → World → Type 0) (l : Loop) (w : World)
      → IsConsistent l.cursor w.db
      → Ends Q Keeps (pause env {A = A} l w)
  unfolding pause
  pause-Keeps Q l w p = elim (Bool-cases (env.done_at w.now)) [
    | inl e ↦ rw e (IsConsistent-IsResumable l.cursor w.db p)
    | inr e ↦ rw e p
  ]

  retry-Keeps :
      {A : Type 0} (Q : A → World → Type 0) (l : Loop) (o : Operation) (e : Error) (w : World)
      → IsConsistent l.cursor w.db
      → Ends Q Keeps (retry_or_exit env {A = A} l o e w)
  unfolding retry_or_exit
  retry-Keeps Q l o e w p = elim (Bool-cases (leb 5 (l.consecutive_errors + 1))) [
    | inl h ↦ rw h (IsConsistent-IsResumable l.cursor w.db p)
    | inr h ↦ rw h (
        pause-Keeps Q (record l { consecutive_errors = (handle_loop_error l.consecutive_errors).0 })
          w p)
  ]

  -- A retried step whose error leaves the store consistent.
  pub attempt-Keeps :
      {A : Type 0} (Q : A → World → Type 0) (l : Loop) (o : Operation) (r : Result Error A × World)
      → Ends Q (λ _ w'. IsConsistent l.cursor w'.db) r
      → Ends Q Keeps (attempt_outcome env l o r)
  attempt-Keeps Q l o (ok a, w) h = h
  attempt-Keeps Q l o (err e, w) h = retry-Keeps Q l o e w h

  pub or_return-Keeps :
      {A : Type 0} (Q : A → World → Type 0) (o : Operation) (n : ℕ) (r : Result Error A × World)
      → Ends Q (λ _ w'. IsConsistent n w'.db) r
      → Ends Q Keeps (or_return_outcome env o r)
  or_return-Keeps Q o n (ok a, w) h = h
  or_return-Keeps Q o n (err e, w) h = IsConsistent-IsResumable n w.db h

  pub check_done-Keeps :
      (n : ℕ) (w : World)
      → IsConsistent n w.db
      → Ends (λ _ w'. w'.db ≡ w.db) Keeps (check_done env w)
  unfolding check_done
  check_done-Keeps n w p = elim (Bool-cases (env.done_at w.now)) [
    | inl e ↦ rw e (IsConsistent-IsResumable n w.db p)
    | inr e ↦ rw e refl
  ]

  -- Calls that read.
  pub block_number_reads :
      (w : World)
      → Ends
          (λ n w'. (w'.db ≡ w.db) × (env.block_number_at w.now ≡ some n))
          (λ _ w'. w'.db ≡ w.db)
          (block_number env w)
  unfolding block_number
  block_number_reads w = ground arith

  pub filter_logs_reads :
      (q : FilterQuery) (w : World)
      → Ends
          (λ ls w'. (w'.db ≡ w.db) × (env.logs_at w.now q ≡ some ls))
          (λ _ w'. w'.db ≡ w.db)
          (filter_logs env q w)
  unfolding filter_logs
  filter_logs_reads q w = ground arith
