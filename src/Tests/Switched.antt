-- ===== src/Tests/Switched.antt =====
-- An indexer whose node is on a chain that is dropped from block 4 on, and then on another.
use cca_go_indexer.Base.{
  ℕ, ◌≡◌, ◌≢◌, refl, sym, ap, ◌∙◌, ◌⊎◌, inl, inr, some, leb, arith, Bool-cases, ◌&&◌, [], ◌∷◌,
}
use mathlib.Core.Path.{subst}
use cca_go_indexer.AuctionCreated.{auction_created_handler, handle}
use cca_go_indexer.AuctionCreated.Writes.{auction_created_handler-IsRowHandler}
use cca_go_indexer.Indexer.{Loop, Exit, run, run_rounds, round, next_round}
use cca_go_indexer.Base.Effect.{Result, ok, err, Ends}
use cca_go_indexer.Indexer.Commits.{HandlesLogs, Succeeds}
use cca_go_indexer.Indexer.Progress.{round-Succeeds}
use cca_go_indexer.World.Healthy.{IsHealthy}
use cca_go_indexer.Store.Blocks.{block_hash}
use cca_go_indexer.Registry.{handle_logs}
use cca_go_indexer.World.Calls.{exec}
use cca_go_indexer.Indexer.Cut.{IsNumbered}
use cca_go_indexer.Indexer.Histories.{
  in_loop, phase, History, began, launched, went_on, IsServed, Holds, History-Holds,
}
use cca_go_indexer.Indexer.Index.{Chain, logs_from, tables}
use cca_go_indexer.Indexer.Reorged.{AreChained}
use cca_go_indexer.Indexer.Settles.{History-IsSettled}
use cca_go_indexer.Indexer.Standing.{Standing, IsSettled}
use cca_go_indexer.Indexer.SwitchRounds.{Follows, round-Follows}
use cca_go_indexer.Indexer.Unchanged.{Unchanged}
use cca_go_indexer.Indexer.Still.{IsStill}
use cca_go_indexer.Indexer.Switches.{Chains, IsIndexOf-block_hash, none-IsIndexOf}
use cca_go_indexer.Indexer.Trusted.{IsTrusted}
use cca_go_indexer.Registry.{HandlerMap, lookup_handler}
use cca_go_indexer.Store.Cursors.{stored_cursor}
use cca_go_indexer.Store.Rows.{RowsUpTo}
use cca_go_indexer.Types.{BlockHeader, zero_hash}
use cca_go_indexer.World.Calls.{Env, World, query}
use cca_go_indexer.World.Database.{Database, empty_database}
use cca_go_indexer.Whole.{AnswersOf, History-AnswersOf}
use cca_go_indexer.Tests.Exact.{chain, logs_between, logs_between-logs_from, logs_of-HasTopic}
use cca_go_indexer.Tests.Reorged.{stale, stale_header, stale-AreChained, stale-IsNumbered}
use cca_go_indexer.Tests.Setup.{
  test_codec, test_formats, healthy, config, logs, logs-UpTo, header, start as begin,
}

-- A node with these headers, and its registry.
unfoldable node : (ℕ → BlockHeader) → Env
unfolding healthy
node h = record healthy { header_at = λ t n. some (h n) }

abbrev registry_of : (ℕ → BlockHeader) → HandlerMap
registry_of h = (77, auction_created_handler test_formats (node h)) ∷ []

node-IsStill :
    (h : ℕ → BlockHeader)
    → IsStill test_formats (node h) config (registry_of h) (record chain { header = h })
unfolding node healthy lookup_handler logs_from
node-IsStill h = record {
  found = refl;
  watched = logs_of-HasTopic;
  headers = λ t n k e. ground arith;
  logs = λ t from to count ls e answered.
      let same : logs_between from to ≡ ls = ground arith in
      sym same ∙ logs_between-logs_from from to count e;
}

node-IsTrusted : (h : ℕ → BlockHeader) → IsTrusted (node h) config (registry_of h)
unfolding node healthy
node-IsTrusted h = record {
  commits = λ t e. cc;
  logs_in_range = λ t q ls e. let same : logs q ≡ ls = ground arith in rw (← same) (logs-UpTo q);
  heads = λ t n e. ground arith;
  batch_size = omega arith;
  handlers = (auction_created_handler-IsRowHandler test_formats (node h), tt);
}

abbrev IsEither : Chain → Type 0
IsEither ch = (ch ≡ stale) ⊎ (ch ≡ chain)

either-elim : (P : Chain → Type 0) → P stale → P chain → (ch : Chain) → IsEither ch → P ch
either-elim P a b ch (inl e) = subst P (sym e) a
either-elim P a b ch (inr e) = subst P (sym e) b

AreChained-self : (ch : Chain) → AreChained ch ch
AreChained-self ch n m e h = (refl, refl)

AreChained-sym : (ch ch' : Chain) → AreChained ch ch' → AreChained ch' ch
AreChained-sym ch ch' p n m e h = let (a, b) = p n m (sym e) h in (sym a, sym b)

stale_hash_set : (n : ℕ) → (stale_header n).hash ≢ zero_hash
stale_hash_set n e = elim (Bool-cases (leb n 3)) [
  | inl low ↦ ground arith
  | inr high ↦ ground arith
]

abbrev forks : Chains
forks = record {
  Possible = IsEither;
  numbered = either-elim IsNumbered stale-IsNumbered stale-IsNumbered;
  hashed =
      either-elim (λ ch. (n : ℕ) → (ch.header n).hash ≢ zero_hash) stale_hash_set
        (λ n e. absurd (omega arith));
  chained = λ ch ch' p p'.
      either-elim (λ k. AreChained k ch')
        (either-elim (AreChained stale) (AreChained-self stale) stale-AreChained ch' p')
        (either-elim (AreChained chain) (AreChained-sym stale chain stale-AreChained)
          (AreChained-self chain) ch' p')
        ch p;
  initial = stale;
  initially = inl refl;
}

abbrev started : World
started = (run (node stale_header) config (registry_of stale_header) 0 begin).1

abbrev on_stale : Exit × World
on_stale = next_round (node stale_header) config (registry_of stale_header) (
    round (node stale_header) config (registry_of stale_header)
      (record { cursor = 1; consecutive_errors = 0 }) started)

abbrev on_chain : Exit × World
on_chain = next_round (node header) config (registry_of header) (
    round (node header) config (registry_of header) (record { cursor = 5; consecutive_errors = 0 })
      on_stale.1)

IsServed_on :
    (h : ℕ → BlockHeader)
    → IsEither (record chain { header = h })
    → IsServed test_formats config forks (node h) (registry_of h)
IsServed_on h p = record {
  chain = record chain { header = h };
  possible = p;
  still = node-IsStill h;
  trusted = node-IsTrusted h;
}

begun :
    phase (run (node stale_header) config (registry_of stale_header) 0 begin).0
    ≡ in_loop (record { cursor = 1; consecutive_errors = 0 })
unfolding run run_rounds query stored_cursor node healthy
begun = refl

node-IsHealthy : (h : ℕ → BlockHeader) → IsHealthy (node h) 12 h logs
unfolding node healthy
node-IsHealthy h = record {
  statements = λ t. refl;
  begins = λ t. refl;
  commits = λ t. refl;
  running = λ t. refl;
  head_answers = λ t. refl;
  header_answers = λ t n. refl;
  log_answers = λ t q. refl;
}

node-HandlesLogs :
    (h : ℕ → BlockHeader) → HandlesLogs (node h) config (registry_of h) 12 h logs (node-IsHealthy h)
unfolding handle_logs auction_created_handler handle exec node healthy
node-HandlesLogs h q w = elim (Bool-cases (leb q.from_block 3 && leb 3 q.to_block)) [
  | inl e ↦ rw e tt
  | inr e ↦ rw e tt
]

succeeded_up :
    (env : Env) (reg : HandlerMap) (j : Loop) (r : Result Exit Loop × World)
    → Succeeds (λ k _. k ≡ j) r
    → phase (next_round env config reg r).0 ≡ in_loop j
succeeded_up env reg j (ok k, w) e = ap in_loop e
succeeded_up env reg j (err x, w) never = absurd never

begun_db : started.db ≡ empty_database
unfolding run run_rounds query node healthy
begun_db = refl

stale_round :
    Succeeds
      (λ k _. k ≡ record { cursor = 5; consecutive_errors = 0 })
      (round
        (node stale_header)
        config
        (registry_of stale_header)
        (record { cursor = 1; consecutive_errors = 0 })
        started)
unfolding block_hash
stale_round =
    round-Succeeds (node stale_header) config (registry_of stale_header) 12 stale_header logs
      (node-IsHealthy stale_header) (node-HandlesLogs stale_header)
      (record { cursor = 1; consecutive_errors = 0 }) started (omega arith) (omega arith)
      (omega arith) (omega arith) (omega arith) (inl (ap (block_hash 1 1) begun_db))

indexed_stale : phase on_stale.0 ≡ in_loop (record { cursor = 5; consecutive_errors = 0 })
indexed_stale =
    succeeded_up (node stale_header) (registry_of stale_header)
      (record { cursor = 5; consecutive_errors = 0 }) _ stale_round

stored_stale :
    History test_formats config forks empty_database
      (in_loop (record { cursor = 5; consecutive_errors = 0 }))
      on_stale.1
stored_stale =
    subst (λ p. History test_formats config forks empty_database p on_stale.1) indexed_stale
      (went_on (node stale_header) (registry_of stale_header)
        (subst (λ p. History test_formats config forks empty_database p started) begun
          (launched (node stale_header) (registry_of stale_header) (began refl) refl))
        (IsServed_on stale_header (inl refl)) refl)

-- Started on the one chain, the indexer has stored a batch of it when the node is on the other one.
switched : History test_formats config forks empty_database (phase on_chain.0) on_chain.1
switched =
    went_on (node header) (registry_of header) stored_stale (IsServed_on header (inr refl)) refl

no_rows : RowsUpTo 1 0 empty_database
no_rows = record { events = tt; auctions = tt; blocks = tt }

no_cursor : (stored_cursor 1 empty_database).0 ≡ 0
unfolding stored_cursor
no_cursor = refl

History-Holds_example :
    Holds test_formats config forks empty_database no_rows no_cursor (phase on_chain.0) on_chain.1
History-Holds_example =
    History-Holds test_formats config forks empty_database no_rows no_cursor switched

-- What the store holds before the round in which the node is on the other chain.
stale_block :
    (i : IsServed test_formats config forks (node stale_header) (registry_of stale_header))
    → i.chain.header ≡ stale_header
    → (l : Loop) (db : Database) (r : Result Exit Loop × World)
    → Succeeds (λ k _. k ≡ record { cursor = 5; consecutive_errors = 0 }) r
    → Ends
        (Follows test_formats config forks 1 empty_database no_rows
          (node stale_header)
          (registry_of stale_header)
          i.chain
          i.possible
          i.still
          i.trusted)
        (Unchanged l db)
        r
    → block_hash 1 3 (next_round (node stale_header) config (registry_of stale_header) r).1.db ≡ 103
stale_block i e l db (ok k, w) at (p, _) =
    let five : k.cursor ≡ 5 = ap (λ j. j.cursor) at in
    IsIndexOf-block_hash test_formats config forks 1 empty_database no_rows i.chain k.cursor 3 w.db
      p (omega (arith, p.low)) (omega arith)
    ∙ ap (λ h. (h 3).hash) e
stale_block i e l db (err x, w) never p = absurd never

served_stale : IsServed test_formats config forks (node stale_header) (registry_of stale_header)
served_stale = IsServed_on stale_header (inl refl)

shared_block : block_hash 1 3 on_stale.1.db ≡ 103
unfolding served_stale IsServed_on
shared_block =
    stale_block served_stale refl (record { cursor = 1; consecutive_errors = 0 }) started.db _
      stale_round
      (round-Follows test_formats config forks 1 empty_database no_rows (node stale_header)
        (registry_of stale_header) stale served_stale.possible served_stale.still
        served_stale.trusted (record { cursor = 1; consecutive_errors = 0 }) started
        (
          stale,
          inl refl,
          none-IsIndexOf test_formats config forks 1 empty_database no_rows stale 1 started.db
              (omega arith) (ap tables begun_db),
        ))

node-Standing :
    (h : ℕ → BlockHeader)
    → IsEither (record chain { header = h })
    → Standing test_formats config forks (node h) (registry_of h)
node-Standing h p = record {
  chain = record chain { header = h };
  possible = p;
  still = node-IsStill h;
  trusted = node-IsTrusted h;
  head = 12;
  logs = logs;
  healthy = node-IsHealthy h;
  handles = node-HandlesLogs h;
  batches = omega arith;
  confirmed = omega arith;
}

no_genesis : block_hash 1 0 empty_database ≡ zero_hash
unfolding block_hash
no_genesis = refl

History-IsSettled_example :
    IsSettled test_formats config forks empty_database no_rows no_genesis
      (node header)
      (registry_of header)
      (node-Standing header (inr refl))
      (run_rounds
        (node header)
        config
        (registry_of header)
        11
        (record { cursor = 5; consecutive_errors = 0 })
        on_stale.1)
unfolding node-Standing
History-IsSettled_example =
    History-IsSettled test_formats config forks empty_database no_rows no_genesis (node header)
      (registry_of header) (node-Standing header (inr refl)) no_cursor 10 stored_stale (omega arith)
      (inr (3, omega arith, omega arith, shared_block)) (omega arith)

round-Follows_example :
    Ends
      (Follows test_formats config forks 1 empty_database no_rows
        (node header)
        (registry_of header)
        chain
        (inr refl)
        (node-IsStill header)
        (node-IsTrusted header))
      (Unchanged (record { cursor = 5; consecutive_errors = 0 }) on_stale.1.db)
      (round
        (node header)
        config
        (registry_of header)
        (record { cursor = 5; consecutive_errors = 0 })
        on_stale.1)
round-Follows_example =
    round-Follows test_formats config forks 1 empty_database no_rows (node header)
      (registry_of header) chain (inr refl) (node-IsStill header) (node-IsTrusted header)
      (record { cursor = 5; consecutive_errors = 0 }) on_stale.1
      (History-Holds test_formats config forks empty_database no_rows no_cursor stored_stale).0

History-AnswersOf_example :
    AnswersOf test_formats config forks empty_database no_rows no_cursor on_chain.1.db
History-AnswersOf_example =
    History-AnswersOf test_formats config forks empty_database no_rows no_cursor switched
