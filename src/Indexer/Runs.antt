-- ===== src/Indexer/Runs.antt =====
-- What holds of any number of rounds of `ChainIndexer.Run` (internal/indexer/indexer.go).
use cca_go_indexer.Base.{ℕ, zero, suc}
use cca_go_indexer.Indexer.{
  IndexerConfig, Loop, Exit, continue_with, return_error, panic, round, next_round, go_on,
  run_rounds,
}
use cca_go_indexer.Registry.{HandlerMap}
use cca_go_indexer.Types.{Codec}
use cca_go_indexer.World.Calls.{Env, World}

module _ ⦃c : Codec⦄ (env : Env) (cfg : IndexerConfig) (registry : HandlerMap)
    (P : Exit × World → Type 0)
    (step : (l : Loop) (w : World)
      → P (continue_with l, w)
      → P (next_round env cfg registry (round env cfg registry l w))) where
  go_on_invariant :
      (next : Loop → World → Exit × World)
      → ((l : Loop) (w : World) → P (continue_with l, w) → P (next l w))
      → (x : Exit × World) → P x
      → P (go_on next x)
  go_on_invariant next h (continue_with l, w) p = h l w p
  go_on_invariant next h (return_error e, w) p = p
  go_on_invariant next h (panic, w) p = p

  -- What each round keeps, any number of rounds keeps.
  pub run_rounds_invariant :
      (n : ℕ) (l : Loop) (w : World)
      → P (continue_with l, w)
      → P (run_rounds env cfg registry n l w)
  unfolding run_rounds
  run_rounds_invariant zero l w p = p
  run_rounds_invariant (suc n) l w p =
      go_on_invariant (run_rounds env cfg registry n) (run_rounds_invariant n)
        (next_round env cfg registry (round env cfg registry l w)) (step l w p)
