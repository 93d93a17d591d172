-- ===== src/Indexer/Trusted.antt =====
-- What the indexer relies on of the services that it calls and of its configuration.
use cca_go_indexer.Base.{ℕ, ◌<◌, ◌≡◌, some, List}
use cca_go_indexer.Indexer.{IndexerConfig}
use cca_go_indexer.Registry.{HandlerMap}
use cca_go_indexer.Registry.Dispatch.{AreRowHandlers, LogsUpTo}
use cca_go_indexer.Types.{Log}
use cca_go_indexer.World.Calls.{Env, FilterQuery}
use cca_go_indexer.World.Tx.{NoLostCommit}

-- Half of the range of uint64: what the database's BIGINT columns hold.
abbrev pub bigint_size : ℕ
bigint_size = 9223372036854775808

-- Block numbers are in BIGINT's range.
abbrev pub SmallHeads : Env → Type 0
SmallHeads env = (t n : ℕ) → env.block_number_at t ≡ some n → n < bigint_size

-- What the indexer relies on: no commit is reported as failed and carried out, the node returns no
-- log from above the range that it was asked for, block numbers and the batch size are in BIGINT's
-- range, and the handlers store rows of their logs' blocks.
pub record IsTrusted (env : Env) (cfg : IndexerConfig) (registry : HandlerMap) : Type 0 where
  pub commits : NoLostCommit env
  pub logs_in_range :
      (t : ℕ) (q : FilterQuery) (ls : List Log) → env.logs_at t q ≡ some ls → LogsUpTo q.to_block ls
  pub heads : SmallHeads env
  pub batch_size : cfg.block_batch_size < bigint_size
  pub handlers : AreRowHandlers registry
