-- ===== src/Tests/Indexed.antt =====
-- What the theorems on the index say for the loop in batches of four and of three.
use cca_go_indexer.Base.{◌-◌, ◌≡◌, arith}
use cca_go_indexer.Indexer.{IndexerConfig, Exit, continue_with, return_error, panic, run_rounds}
use cca_go_indexer.Indexer.CaughtUp.{HasIndexed, GoesOnAt, run_rounds-HasIndexed}
use cca_go_indexer.Indexer.CatchUp.{AtSafeHead, run_rounds-AtSafeHead}
use cca_go_indexer.Indexer.Fresh.{run-HasIndexed}
use cca_go_indexer.Indexer.{run}
use cca_go_indexer.Indexer.Trusted.{IsTrusted}
use cca_go_indexer.World.Calls.{World}
use cca_go_indexer.Indexer.Exactly.{ExactAt, run_rounds-ExactAt}
use cca_go_indexer.Indexer.Index.{index_blocks}
use cca_go_indexer.Whole.{answer_over, run_rounds_answers}
use cca_go_indexer.Text.{codes}
use cca_go_indexer.Tests.Server.{lookup}
use cca_go_indexer.World.Database.{empty_database}
use cca_go_indexer.Tests.Setup.{
  test_codec, test_formats, healthy, config, registry, healthy-IsTrusted, healthy-IsHealthy, header,
  logs, start,
}
use cca_go_indexer.Tests.Progress.{registry-HandlesLogs, first, first-IsReady}
use cca_go_indexer.Tests.Exact.{chain, healthy-IsStill, first-IsExact}

run_rounds-ExactAt_example :
    ExactAt test_formats healthy config registry chain healthy-IsStill healthy-IsTrusted 1
      empty_database
      (run_rounds healthy config registry 2 first start)
run_rounds-ExactAt_example =
    run_rounds-ExactAt test_formats healthy config registry chain healthy-IsStill healthy-IsTrusted
      1 empty_database 2 first start first-IsExact

run_rounds-HasIndexed_example :
    HasIndexed test_formats healthy config registry chain healthy-IsStill healthy-IsTrusted 12 logs
      healthy-IsHealthy 1 empty_database
      (run_rounds healthy config registry 9 first start)
run_rounds-HasIndexed_example =
    run_rounds-HasIndexed test_formats healthy config registry chain healthy-IsStill
      healthy-IsTrusted 12 logs healthy-IsHealthy registry-HandlesLogs (omega arith) (omega arith) 9
      first start first-IsReady (omega arith)

safe_GoesOnAt :
    (cfg : IndexerConfig) (trusted : IsTrusted healthy cfg registry) (x : Exit × World)
    → AtSafeHead healthy cfg registry trusted 1 12 header logs healthy-IsHealthy x
    → GoesOnAt (12 - cfg.confirmations) x
safe_GoesOnAt cfg trusted (continue_with k, w) (here, rest) = here
safe_GoesOnAt cfg trusted (return_error e, w) never = never
safe_GoesOnAt cfg trusted (panic, w) never = never

-- A request of the auction, over the indexer's database and over the index of the ten blocks.
run_rounds_answers_example :
    answer_over healthy 1
      (codes "new")
      lookup
      0
      (run_rounds healthy config registry 9 first start).1.db
    ≡ answer_over healthy 1
        (codes "new")
        lookup
        0
        (index_blocks test_formats 1 chain 2 9 empty_database)
run_rounds_answers_example =
    run_rounds_answers test_formats healthy config registry chain healthy-IsStill healthy-IsTrusted
      healthy 1 (codes "new") lookup 0 1 empty_database 9 first start 10 first-IsExact
      (safe_GoesOnAt config healthy-IsTrusted (run_rounds healthy config registry 9 first start) (
        run_rounds-AtSafeHead healthy config registry healthy-IsTrusted 1 12 header logs
          healthy-IsHealthy registry-HandlesLogs (omega arith) (omega arith) 9 first start
          first-IsReady (omega arith)))

run-HasIndexed_example :
    HasIndexed test_formats healthy config registry chain healthy-IsStill healthy-IsTrusted 12 logs
      healthy-IsHealthy 1 empty_database
      (run healthy config registry 9 start)
run-HasIndexed_example =
    run-HasIndexed test_formats healthy config registry chain healthy-IsStill healthy-IsTrusted 12
      logs healthy-IsHealthy registry-HandlesLogs (omega arith) (omega arith) (omega arith) 9 0
      (omega arith)
