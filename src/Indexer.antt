-- ===== src/Indexer.antt =====
-- `ChainIndexer.Run` (internal/indexer/indexer.go): one round of its loop as a function of the loop's
-- variables, and the loop as rounds in a row.
pub mod Batch
pub mod Invariant
pub mod Trusted
pub mod BatchRound
pub mod Rounds
pub mod Budget
pub mod Survival
pub mod Commits
pub mod Progress
pub mod CatchUp
pub mod EmptyBatch
pub mod Index
pub mod Cut
pub mod Forks
pub mod Fresh
pub mod Hashes
pub mod Switches
pub mod Settles
pub mod Standing
pub mod Recovery
pub mod Histories
pub mod SwitchRounds
pub mod Again
pub mod Present
pub mod Unchanged
pub mod Detection
pub mod Reorged
pub mod Entries
pub mod Still
pub mod StillRounds
pub mod Runs
pub mod Ahead
pub mod Overlap
pub mod BatchCommits
pub mod Exactly
pub mod CaughtUp
use cca_go_indexer.Base.{
  ℕ, zero, suc, ◌+◌, ◌-◌, ◌^◌, ◌≡◌, Bool, true, false, Option, none, some, List, [], ◌∷◌, ◌==◌, ltb,
  leb, u64, sub64, min, get_elem?, if◌then◌else◌, ◌&&◌,
}
use cca_go_indexer.Base.Effect.{Result, ok, err, M, pure, raise, ◌>>◌, ◌>>=◌}
use cca_go_indexer.Headers.{fetch_headers}
use cca_go_indexer.Registry.{HandlerMap, topic_filter, handle_logs}
use cca_go_indexer.Reorg.{detect_reorg, handle_reorg}
use cca_go_indexer.Store.Blocks
use cca_go_indexer.Store.Cursors
use cca_go_indexer.Types.{Address, BlockHeader, Codec, Hash, Log}
use cca_go_indexer.World.Calls.{
  Env, World, Action, FilterQuery, tick, wrap, block_number, filter_logs,
}
use cca_go_indexer.World.Errors.{
  Error, rpc_error, canceled, wrapped, Operation, loading_cursor, get_block_number,
  filter_logs as filtering_logs, handling_logs, inserting_block, upserting_cursor, executing_batch,
  handle_reorg as handling_reorg, fetching_headers, detect_reorg_at, header_for_block,
}
use cca_go_indexer.World.Tx.{with_tx}

-- `IndexerConfig`, less the poll interval and the number of concurrent header requests.
pub record IndexerConfig : Type 0 where
  pub chain_id : ℕ
  pub start_block : ℕ
  pub block_batch_size : ℕ
  pub confirmations : ℕ
  pub addresses : List Address

abbrev pub max_loop_retries : ℕ
max_loop_retries = 5

-- The variables of `Run` that its loop keeps.
pub record Loop : Type 0 where
  pub cursor : ℕ
  pub consecutive_errors : ℕ

-- How a round ends before its last line: `continue`, `return err`, or a run-time panic.
pub data Exit : Type 0 where
  continue_with : Loop → Exit
  return_error : Error → Exit
  panic : Exit

abbrev pub Round : Type 0 → Type 0
Round A = M World Exit A

-- `handleLoopError`: the new count, and whether the budget is spent.
unfoldable pub handle_loop_error : ℕ → ℕ × Bool
handle_loop_error n = (n + 1, leb max_loop_retries (n + 1))

abbrev pub initial_cursor : ℕ → ℕ → ℕ
initial_cursor start cursor = if (cursor == 0) && ltb 0 start then start - 1 else cursor

-- The loop goes on with the next round, or `Run` has ended.
abbrev pub go_on : (Loop → World → Exit × World) → Exit × World → Exit × World
go_on next (continue_with l, w) = next l w
go_on next (return_error e, w) = (return_error e, w)
go_on next (panic, w) = (panic, w)

module _ (env : Env) where
  -- `select` on `ctx.Done()` and the timer: whichever comes first.
  unfoldable pub pause : {A : Type 0} → Loop → Round A
  pause l w = (err (if env.done_at w.now then return_error canceled else continue_with l), tick w)

  -- `select` on `ctx.Done()` with a default.
  unfoldable pub check_done : Round (Unit {0})
  check_done w = (if env.done_at w.now then err (return_error canceled) else ok tt, tick w)

  -- What the loop does with an error of a step that it retries.
  unfoldable pub retry_or_exit : {A : Type 0} → Loop → Operation → Error → Round A
  unfolding pause handle_loop_error
  retry_or_exit l operation e =
      let (count, exhausted) = handle_loop_error l.consecutive_errors in
      if exhausted
      then raise (return_error (wrapped operation e))
      else pause (record l { consecutive_errors = count })

  abbrev pub attempt_outcome :
      {A : Type 0} → Loop → Operation → Result Error A × World → Result Exit A × World
  attempt_outcome l operation (ok a, w) = (ok a, w)
  attempt_outcome l operation (err e, w) = retry_or_exit l operation e w

  abbrev pub attempt : {A : Type 0} → Loop → Operation → Action A → Round A
  attempt l operation m w = attempt_outcome l operation (m w)

  -- A step whose error ends `Run` at once.
  abbrev pub or_return_outcome :
      {A : Type 0} → Operation → Result Error A × World → Result Exit A × World
  or_return_outcome operation (ok a, w) = (ok a, w)
  or_return_outcome operation (err e, w) = (err (return_error (wrapped operation e)), w)

  abbrev pub or_return : {A : Type 0} → Operation → Action A → Round A
  or_return operation m w = or_return_outcome operation (m w)

  module _ ⦃c : Codec⦄ (cfg : IndexerConfig) (registry : HandlerMap) where
    -- The loop over the headers in the batch's transaction.
    pub insert_blocks : ℕ → List BlockHeader → Action (Unit {0})
    insert_blocks n [] = pure tt
    insert_blocks n (h ∷ hs) = do
      wrap (inserting_block n) (Blocks.insert env cfg.chain_id n h.hash h.parent_hash)
      insert_blocks (n + 1) hs

    -- The function that `Run` gives to `WithTx`.
    pub store_batch : ℕ → ℕ → List Log → List BlockHeader → Hash → Action (Unit {0})
    unfolding insert_blocks
    store_batch from to logs headers last_block_hash = do
      wrap handling_logs (handle_logs registry cfg.chain_id logs)
      insert_blocks from headers
      wrap upserting_cursor (Cursors.save env cfg.chain_id to last_block_hash)

    -- `headers[i]`, out of range a panic.
    abbrev index : List BlockHeader → ℕ → Round BlockHeader
    index headers i w = elim (get_elem? headers i) [ none ↦ (err panic, w) | some h ↦ (ok h, w) ]

    abbrev batch_query : ℕ → ℕ → FilterQuery
    batch_query from to = record {
      from_block = from;
      to_block = to;
      addresses = cfg.addresses;
      topics = topic_filter registry;
    }

    -- From the request for the logs on. `make` panics for a length that is no `int`.
    pub process_batch : Loop → ℕ → ℕ → Round Loop
    unfolding store_batch
    process_batch l from to = do
      logs ← attempt l filtering_logs (filter_logs env (batch_query from to))
      let count = u64 (sub64 to from + 1)
      if leb 9223372036854775808 count then raise panic else pure tt
      headers ← attempt l fetching_headers (fetch_headers env from count)
      last ← index headers (sub64 to from)
      attempt l executing_batch (with_tx env (store_batch from to logs headers last.hash))
      pure (record { cursor = to; consecutive_errors = 0 })

    pub recover : Loop → Round Loop
    recover l = do
      ancestor ← or_return handling_reorg (handle_reorg env cfg.chain_id l.cursor)
      pure (record { cursor = ancestor; consecutive_errors = 0 })

    -- One round of the loop.
    unfoldable pub round : Loop → Round Loop
    unfolding process_batch recover
    round l = do
      check_done
      chain_head ← attempt l get_block_number (block_number env)
      if ltb chain_head cfg.confirmations then pause l else pure tt
      if ltb chain_head cfg.confirmations then pause l else pure tt
      let safe_head = chain_head - cfg.confirmations
      if leb safe_head l.cursor then pause l else pure tt
      reorged ← attempt l (detect_reorg_at l.cursor) (detect_reorg env cfg.chain_id l.cursor)
      if reorged
          then recover l
          else process_batch l (u64 (l.cursor + 1))
              (min (u64 (l.cursor + cfg.block_batch_size)) safe_head)

    -- What a round that came to its last line hands to the next one.
    abbrev pub next_round : Result Exit Loop × World → Exit × World
    next_round (ok l, w) = (continue_with l, w)
    next_round (err e, w) = (e, w)

    -- So many rounds, or as many as there are before `Run` ends.
    unfoldable pub run_rounds : ℕ → Loop → World → Exit × World
    unfolding round
    run_rounds zero l w = (continue_with l, w)
    run_rounds (suc n) l w = go_on (run_rounds n) (next_round (round l w))

    abbrev start : (Loop → World → Exit × World) → Result Exit (ℕ × Hash) × World → Exit × World
    start loop (ok (cursor, _), w) =
        loop (record { cursor = initial_cursor cfg.start_block cursor; consecutive_errors = 0 }) w
    start loop (err e, w) = (e, w)

    -- `Run`, for so many rounds.
    unfoldable pub run : ℕ → World → Exit × World
    unfolding run_rounds
    run n w = start (run_rounds n) (or_return loading_cursor (Cursors.get env cfg.chain_id) w)
