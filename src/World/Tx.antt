-- ===== src/World/Tx.antt =====
-- `pgStore.WithTx` (internal/store/postgres/postgres.go), and the rule that its callers' proofs use.
use cca_go_indexer.Base.{ℕ, suc, ◌≡◌, refl, ◌⊎◌, inl, inr, if◌then◌else◌, Bool-cases}
use cca_go_indexer.Base.Effect.{Result, ok, err, Ends, Ends-weaken}
use cca_go_indexer.World.Database.{Database}
use cca_go_indexer.World.Errors.{Error, database_error, wrapped, begin_tx, commit_tx}
use cca_go_indexer.World.Calls.{
  Env, World, Action, tick, CommitAnswer, committed, rolled_back, lost,
}

-- `tx.Commit` at the end of a transaction that began at `before`.
abbrev pub commit : {A : Type 0} → CommitAnswer → Database → A → World → Result Error A × World
commit committed before a w = (ok a, tick w)
commit rolled_back before a w =
    (err (wrapped commit_tx database_error), record { db = before; now = suc w.now })
commit lost before a w = (err (wrapped commit_tx database_error), tick w)

module _ (env : Env) where
  -- An error of the function undoes what it wrote (`tx.Rollback`), and so does a failed commit.
  abbrev pub end_tx : {A : Type 0} → Database → Result Error A × World → Result Error A × World
  end_tx before (ok a, w) = commit (env.commit_answer w.now) before a w
  end_tx before (err e, w) = (err e, record { db = before; now = suc w.now })

  unfoldable pub with_tx : {A : Type 0} → Action A → Action A
  with_tx fn w =
      if env.begin_fails w.now
      then (err (wrapped begin_tx database_error), tick w)
      else end_tx w.db (fn (tick w))

  -- No commit is carried out and reported as failed.
  abbrev pub NoLostCommit : Type 0
  NoLostCommit = (t : ℕ) → ¬ (env.commit_answer t ≡ lost)

  -- What an error of a transaction leaves: the database of its beginning, unless the commit was
  -- carried out all the same.
  abbrev pub Undone : {A : Type 0} → (A → Database → Type 0) → Database → World → Type 0
  Undone {A} Q before w =
      (w.db ≡ before) ⊎ ((a : A) × Q a w.db × ((t : ℕ) × (env.commit_answer t ≡ lost)))

  commit-Ends :
      {A : Type 0} (Q : A → Database → Type 0) (before : Database) (a : A) (w : World)
      (answer : CommitAnswer)
      → env.commit_answer w.now ≡ answer
      → Q a w.db
      → Ends (λ a' s. Q a' s.db) (λ _ s. Undone Q before s) (commit answer before a w)
  commit-Ends Q before a w committed e q = q
  commit-Ends Q before a w rolled_back e q = inl refl
  commit-Ends Q before a w lost e q = inr (a, q, (w.now, e))

  end_tx-Ends :
      {A : Type 0} (Q : A → Database → Type 0) (before : Database) (r : Result Error A × World)
      → Ends (λ a s. Q a s.db) (λ _ _. Unit {0}) r
      → Ends (λ a s. Q a s.db) (λ _ s. Undone Q before s) (end_tx before r)
  end_tx-Ends Q before (ok a, w) q = commit-Ends Q before a w (env.commit_answer w.now) refl q
  end_tx-Ends Q before (err e, w) q = inl refl

  -- A transaction ends with what its function established, or with an error that leaves the
  -- database as it was, or whose commit was lost.
  pub with_tx-Ends :
      {A : Type 0} (Q : A → Database → Type 0) (fn : Action A) (w : World)
      → Ends (λ a s. Q a s.db) (λ _ _. Unit {0}) (fn (tick w))
      → Ends (λ a s. Q a s.db) (λ _ s. Undone Q w.db s) (with_tx fn w)
  unfolding with_tx
  with_tx-Ends Q fn w q = elim (Bool-cases (env.begin_fails w.now)) [
    | inl e ↦ rw e (inl refl)
    | inr e ↦ rw e (end_tx-Ends Q w.db (fn (tick w)) q)
  ]

  -- With no lost commits an error means that the database is as before.
  pub Undone-same :
      {A : Type 0} (Q : A → Database → Type 0) (before : Database) (w : World)
      → NoLostCommit
      → Undone Q before w
      → w.db ≡ before
  Undone-same Q before w kept (inl same) = same
  Undone-same Q before w kept (inr (a, q, (t, e))) = absurd (kept t e)

  -- A transaction is atomic: it ends with what its function established, or with an error and the
  -- database of its beginning.
  pub with_tx_atomic :
      {A : Type 0} (Q : A → Database → Type 0) (fn : Action A) (w : World)
      → NoLostCommit
      → Ends (λ a s. Q a s.db) (λ _ _. Unit {0}) (fn (tick w))
      → Ends (λ a s. Q a s.db) (λ _ s. s.db ≡ w.db) (with_tx fn w)
  with_tx_atomic Q fn w kept h =
      Ends-weaken _ _ _ _ (with_tx fn w) (λ a s q. q) (λ e s u. Undone-same Q w.db s kept u)
        (with_tx-Ends Q fn w h)
