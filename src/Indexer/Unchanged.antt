-- ===== src/Indexer/Unchanged.antt =====
-- That a step which does not come to its end leaves the loop and the database alone
-- (internal/indexer/indexer.go).
use cca_go_indexer.Base.{
  ◌+◌, ◌≡◌, refl, inl, inr, Bool, true, false, Bool-cases, leb, if◌then◌else◌,
}
use cca_go_indexer.Base.Effect.{Result, ok, err, Ends, Ends-and_then, Ends-weaken, and_then, pure}
use cca_go_indexer.Indexer.{
  Loop, Exit, continue_with, return_error, panic, Round, pause, check_done, retry_or_exit, attempt,
  attempt_outcome, or_return_outcome,
}
use cca_go_indexer.World.Calls.{Env, World, Action}
use cca_go_indexer.World.Database.{Database}
use cca_go_indexer.World.Errors.{Error, Operation}

-- A round that goes on or ends early has left the cursor and the database alone.
abbrev pub Unchanged : Loop → Database → Exit → World → Type 0
Unchanged l db (continue_with k) w = (k.cursor ≡ l.cursor) × (w.db ≡ db)
Unchanged l db (return_error e) w = w.db ≡ db
Unchanged l db panic w = w.db ≡ db

module _ (env : Env) (l : Loop) (db : Database) where
  pub pause-Unchanged :
      {A : Type 0} (Q : A → World → Type 0) (k : Loop) (w : World)
      → k.cursor ≡ l.cursor
      → w.db ≡ db
      → Ends Q (Unchanged l db) (pause env {A = A} k w)
  unfolding pause
  pause-Unchanged Q k w e same = elim (Bool-cases (env.done_at w.now)) [
    | inl d ↦ rw d same
    | inr d ↦ rw d (e, same)
  ]

  pub attempt-Unchanged :
      {A : Type 0} (Q : A → World → Type 0) (o : Operation) (r : Result Error A × World)
      → Ends Q (λ _ w'. w'.db ≡ db) r
      → Ends Q (Unchanged l db) (attempt_outcome env l o r)
  unfolding retry_or_exit
  attempt-Unchanged Q o (ok a, w) h = h
  attempt-Unchanged Q o (err e, w) h = elim (Bool-cases (leb 5 (l.consecutive_errors + 1))) [
    | inl spent ↦ rw spent h
    | inr left ↦
        rw left
          (pause-Unchanged Q (record l { consecutive_errors = l.consecutive_errors + 1 }) w refl h)
  ]

  pub check_done-Unchanged :
      (w : World) → w.db ≡ db → Ends (λ _ w'. w'.db ≡ db) (Unchanged l db) (check_done env w)
  unfolding check_done
  check_done-Unchanged w same = elim (Bool-cases (env.done_at w.now)) [
    | inl e ↦ rw e same
    | inr e ↦ rw e same
  ]

-- What follows a step, where what it leaves on its way out is enough for `X`.
module _ (env : Env) (l : Loop) (db : Database) (X : Exit → World → Type 0)
    (enough : (x : Exit) (w : World) → Unchanged l db x w → X x w) where
  -- A retried step that leaves the database alone where it fails, and what follows it.
  pub attempt_next :
      {A B : Type 0} (Q : A → World → Type 0) (R : B → World → Type 0) (o : Operation)
      (m : Action A) (k : A → Round B) (w : World)
      → Ends Q (λ _ w'. w'.db ≡ db) (m w)
      → ((a : A) (w' : World) → Q a w' → Ends R X (k a w'))
      → Ends R X (and_then (attempt env l o m w) k)
  attempt_next Q R o m k w h next =
      Ends-and_then Q R X (attempt env l o m w) k
        (Ends-weaken Q Q (Unchanged l db) X (attempt env l o m w) (λ _ _ q. q) enough
          (attempt-Unchanged env l db Q o (m w) h))
        next

  -- A guard that pauses, and what follows it where it does not.
  pub guard_next :
      {B : Type 0} (R : B → World → Type 0) (b : Bool) (k : Unit {0} → Round B) (w : World)
      → w.db ≡ db
      → (b ≡ false → Ends R X (k tt w))
      → Ends R X (and_then ((if b then pause env {A = Unit {0}} l else pure tt) w) k)
  guard_next R true k w same next =
      Ends-and_then (λ _ _. ⊥) R X (pause env {A = Unit {0}} l w) k
        (Ends-weaken _ _ _ _ (pause env {A = Unit {0}} l w) (λ _ _ never. never) enough
          (pause-Unchanged env l db (λ _ _. ⊥) l w refl same))
        (λ _ _ never. absurd never)
  guard_next R false k w same next = next refl

-- A retried step whose error leaves a database of which `P` holds, where that is enough for `X`.
pub attempt_keeps :
    {A : Type 0} (env : Env) (l : Loop) (P : Database → Type 0) (X : Exit → World → Type 0)
    (Q : A → World → Type 0) (o : Operation) (r : Result Error A × World)
    → ((db : Database) → P db → (x : Exit) (w : World) → Unchanged l db x w → X x w)
    → Ends Q (λ _ w'. P w'.db) r
    → Ends Q X (attempt_outcome env l o r)
attempt_keeps env l P X Q o (ok a, w) enough h = h
attempt_keeps env l P X Q o (err e, w) enough h =
    Ends-weaken Q Q (Unchanged l w.db) X (attempt_outcome env l o (err e, w)) (λ _ _ q. q)
      (enough w.db h) (attempt-Unchanged env l w.db Q o (err e, w) refl)

-- A step whose error ends `Run` leaves the database alone where it does so.
pub or_return-Unchanged :
    {A : Type 0} (env : Env) (l : Loop) (db : Database) (Q : A → World → Type 0) (o : Operation)
    (r : Result Error A × World)
    → Ends Q (λ _ w'. w'.db ≡ db) r
    → Ends Q (Unchanged l db) (or_return_outcome env o r)
or_return-Unchanged env l db Q o (ok a, w) h = h
or_return-Unchanged env l db Q o (err e, w) h = h
