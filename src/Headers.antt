-- ===== src/Headers.antt =====
-- The concurrent fetch of a batch's headers in `ChainIndexer.Run` (internal/indexer/indexer.go):
-- one task for each block, each writing its own slot, in an `errgroup`.
pub mod Slots
use cca_go_indexer.Base.{
  ℕ, zero, suc, ◌+◌, ◌<◌, ◌≡◌, refl, Option, none, some, List, [], ◌∷◌, set, replicate, get_elem?,
}
use cca_go_indexer.Base.Effect.{Result, ok, err}
use cca_go_indexer.Types.{BlockHeader}
use cca_go_indexer.World.Calls.{Env, World, Action, tick}
use cca_go_indexer.World.Errors.{Error, rpc_error, wrapped, header_for_block}

-- The slots, and the block whose request failed first.
pub record Fetch : Type 0 where
  pub slots : List BlockHeader
  pub failed : Option ℕ

-- `blockHeader{}`
abbrev pub no_header : BlockHeader
no_header = record { hash = 0; parent_hash = 0 }

-- The first error of a group stays.
abbrev pub first_failure : Option ℕ → ℕ → Option ℕ
first_failure none n = some n
first_failure (some m) n = some m

-- The task of the slot `i`, when the node answered.
pub finish : ℕ → ℕ → Option BlockHeader → Fetch → Fetch
finish from i none f = record f { failed = first_failure f.failed (from + i) }
finish from i (some h) f = record f { slots = set f.slots i h }

-- The tasks, in the order in which they end.
pub run_tasks : (ℕ → Option BlockHeader) → ℕ → List ℕ → Fetch → Fetch
unfolding finish
run_tasks header from [] f = f
run_tasks header from (i ∷ order) f =
    run_tasks header from order (finish from i (header (from + i)) f)

-- `g.Wait`
pub wait : Fetch → Result Error (List BlockHeader)
wait f = elim (f.failed) [
  | none ↦ ok f.slots
  | some n ↦ err (wrapped (header_for_block n) rpc_error)
]

abbrev pub unfetched : ℕ → Fetch
unfetched count = record { slots = replicate count no_header; failed = none }

pub fetch_headers : Env → ℕ → ℕ → Action (List BlockHeader)
unfolding run_tasks wait
fetch_headers env from count w = (
  wait (run_tasks (env.header_at w.now) from (env.completion_at w.now count) (unfetched count)),
  tick w,
)
