-- ===== src/World/Calls.antt =====
-- Single calls of the database, of the RPC node and of a context. An environment fixes what each
-- call that may be made at a time answers; a theorem about every environment covers every
-- behaviour of these services over time, failures and chain reorganisations included.
use cca_go_indexer.Base.{
  ℕ, suc, ◌<◌, ◌≡◌, Bool, true, Option, none, some, List, if◌then◌else◌, All, contains,
}
use cca_go_indexer.Base.Effect.{Result, ok, err, M, Ends}
use cca_go_indexer.Types.{Hash, Address, BlockHeader, Log}
use cca_go_indexer.World.Database.{Database}
use cca_go_indexer.World.Errors.{Error, database_error, rpc_error, wrapped, Operation}

-- `ethereum.FilterQuery`, with its `Topics` in the one position that is used.
pub record FilterQuery : Type 0 where
  pub from_block : ℕ
  pub to_block : ℕ
  pub addresses : List Address
  pub topics : List (List Hash)

-- What `Commit` may answer; after `lost` the transaction is committed and the caller has an error.
pub data CommitAnswer : Type 0 where
  committed rolled_back lost : CommitAnswer

-- The order in which `count` concurrent tasks end: each of them is there, and nothing else.
pub record IsOrder (count : ℕ) (order : List ℕ) : Type 0 where
  pub in_range : All (λ i. i < count) order
  pub complete : (i : ℕ) → i < count → contains i order ≡ true

-- The answers, by the number of calls that were made before.
pub record Env : Type 0 where
  -- a statement, `Begin` and `Commit`
  pub statement_fails : ℕ → Bool
  pub begin_fails : ℕ → Bool
  pub commit_answer : ℕ → CommitAnswer
  -- `BlockNumber`, `HeaderByNumber` and `FilterLogs`, with no value for an error
  pub block_number_at : ℕ → Option ℕ
  pub header_at : ℕ → ℕ → Option BlockHeader
  pub logs_at : ℕ → FilterQuery → Option (List Log)
  -- the order in which an `errgroup` of so many tasks ends; `Wait` waits for all of them
  pub completion_at : ℕ → ℕ → List ℕ
  pub completion_IsOrder : (t count : ℕ) → IsOrder count (completion_at t count)
  -- whether the context is done
  pub done_at : ℕ → Bool

pub record World : Type 0 where
  pub db : Database
  pub now : ℕ

abbrev pub Action : Type 0 → Type 0
Action A = M World Error A

abbrev pub tick : World → World
tick w = record w { now = suc w.now }

-- `fmt.Errorf("...: %w", err)` around the error of a call.
abbrev pub wrap_outcome : {A : Type 0} → Operation → Result Error A × World → Result Error A × World
wrap_outcome o (ok a, w) = (ok a, w)
wrap_outcome o (err e, w) = (err (wrapped o e), w)

abbrev pub wrap : {A : Type 0} → Operation → Action A → Action A
wrap o m w = wrap_outcome o (m w)

-- Wrapping changes neither the value nor the state.
pub wrap-Ends :
    {A : Type 0} (o : Operation) (Q : A → World → Type 0) (X : World → Type 0)
    (r : Result Error A × World)
    → Ends Q (λ _ s. X s) r
    → Ends Q (λ _ s. X s) (wrap_outcome o r)
wrap-Ends o Q X (ok a, w) h = h
wrap-Ends o Q X (err e, w) h = h

abbrev pub answer : {A : Type 0} → Option A → World → Result Error A × World
answer none w = (err rpc_error, w)
answer (some a) w = (ok a, w)

module _ (env : Env) where
  -- `Exec` of a statement that writes.
  unfoldable pub exec : (Database → Database) → Action (Unit {0})
  exec change w =
      if env.statement_fails w.now
      then (err database_error, tick w)
      else (ok tt, record { db = change w.db; now = suc w.now })

  -- `QueryRow` and `Scan`.
  unfoldable pub query : {A : Type 0} → (Database → A) → Action A
  query read w =
      if env.statement_fails w.now then (err database_error, tick w) else (ok (read w.db), tick w)

  -- `Client.BlockNumber`, `Client.HeaderByNumber` and `Client.FilterLogs`.
  unfoldable pub block_number : Action ℕ
  block_number w = answer (env.block_number_at w.now) (tick w)

  unfoldable pub header_by_number : ℕ → Action BlockHeader
  header_by_number n w = answer (env.header_at w.now n) (tick w)

  unfoldable pub filter_logs : FilterQuery → Action (List Log)
  filter_logs q w = answer (env.logs_at w.now q) (tick w)
