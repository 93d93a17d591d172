-- ===== src/World/Healthy.antt =====
-- An environment in which every call succeeds and the chain stands still: what liveness is stated
-- under.
use cca_go_indexer.Base.{ℕ, ◌≡◌, false, some, List}
use cca_go_indexer.Types.{BlockHeader, Log}
use cca_go_indexer.World.Calls.{Env, FilterQuery, committed}

pub record IsHealthy (env : Env) (head : ℕ) (header : ℕ → BlockHeader)
    (logs : FilterQuery → List Log) : Type 0 where
  pub statements : (t : ℕ) → env.statement_fails t ≡ false
  pub begins : (t : ℕ) → env.begin_fails t ≡ false
  pub commits : (t : ℕ) → env.commit_answer t ≡ committed
  pub running : (t : ℕ) → env.done_at t ≡ false
  pub head_answers : (t : ℕ) → env.block_number_at t ≡ some head
  pub header_answers : (t n : ℕ) → env.header_at t n ≡ some (header n)
  pub log_answers : (t : ℕ) (q : FilterQuery) → env.logs_at t q ≡ some (logs q)
