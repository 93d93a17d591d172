-- ===== src/Indexer/Survival.antt =====
-- How long the retry budget of `ChainIndexer.Run` lasts (internal/indexer/indexer.go).
use cca_go_indexer.Base.{ℕ, zero, suc, ◌+◌, ◌<◌, ◌≤◌, ◌≡◌, inl, inr, arith}
use cca_go_indexer.Base.Effect.{Result, ok, err, Ends}
use cca_go_indexer.Indexer.{
  IndexerConfig, Loop, Exit, continue_with, return_error, panic, round, next_round, go_on,
  run_rounds, max_loop_retries,
}
use cca_go_indexer.Registry.{HandlerMap}
use cca_go_indexer.Types.{Codec}
use cca_go_indexer.World.Calls.{Env, World}
use cca_go_indexer.Indexer.Budget.{IsFatal, Spends, round-Resets}

-- At most `n` errors are counted, or `Run` has ended with a fatal error or a panic.
abbrev pub Survives : ℕ → Exit → Type 0
Survives n (continue_with k) = k.consecutive_errors ≤ n
Survives n (return_error e) = IsFatal e
Survives n panic = Unit

module _ ⦃c : Codec⦄ (env : Env) (cfg : IndexerConfig) (registry : HandlerMap) where
  continue-Survives :
      (n : ℕ) (l k : Loop)
      → ((j : Loop) (w : World)
          → j.consecutive_errors + n < max_loop_retries
          → Survives (j.consecutive_errors + n) (run_rounds env cfg registry n j w).0)
      → (k.consecutive_errors ≤ l.consecutive_errors + 1)
      → l.consecutive_errors + suc n < max_loop_retries
      → (w : World) → Survives (l.consecutive_errors + suc n) (run_rounds env cfg registry n k w).0
  continue-Survives n l k ih le h w =
      weaken (run_rounds env cfg registry n k w).0 (ih k w (omega arith))
    where
      weaken :
          (x : Exit)
          → Survives (k.consecutive_errors + n) x
          → Survives (l.consecutive_errors + suc n) x
      weaken (continue_with j) s = omega arith
      weaken (return_error e) s = s
      weaken panic s = tt

  go_on-Survives :
      (n : ℕ) (l : Loop)
      → ((j : Loop) (w : World)
          → j.consecutive_errors + n < max_loop_retries
          → Survives (j.consecutive_errors + n) (run_rounds env cfg registry n j w).0)
      → (r : Result Exit Loop × World) → l.consecutive_errors + suc n < max_loop_retries
      → Ends (λ k _. k.consecutive_errors ≡ 0) (λ x _. Spends l x) r
      → Survives
          (l.consecutive_errors + suc n)
          (go_on (run_rounds env cfg registry n) (next_round env cfg registry r)).0
  go_on-Survives n l ih (ok k, w) h s = continue-Survives n l k ih (omega arith) h w
  go_on-Survives n l ih (err (continue_with k), w) h (_, inl same) =
      continue-Survives n l k ih (omega arith) h w
  go_on-Survives n l ih (err (continue_with k), w) h (_, inr more) =
      continue-Survives n l k ih (omega arith) h w
  go_on-Survives n l ih (err (return_error e), w) h (inl fatal) = fatal
  go_on-Survives n l ih (err (return_error e), w) h (inr spent) = absurd (omega arith)
  go_on-Survives n l ih (err panic, w) h s = tt

  -- Over rounds fewer than what is left of the budget of five errors, `Run` returns an error only if
  -- the context is done or a reorganisation could not be handled; the errors of the other steps are
  -- counted, at most one for each round, and retried.
  pub run_rounds-Survives :
      (n : ℕ) (l : Loop) (w : World)
      → l.consecutive_errors + n < max_loop_retries
      → Survives (l.consecutive_errors + n) (run_rounds env cfg registry n l w).0
  unfolding run_rounds
  run_rounds-Survives zero l w h = omega arith
  run_rounds-Survives (suc n) l w h =
      go_on-Survives n l (run_rounds-Survives n) (round env cfg registry l w) h
        (round-Resets env l cfg registry w)
