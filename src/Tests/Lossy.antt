-- ===== src/Tests/Lossy.antt =====
-- What the theorem on lost commits says where the answer to a commit is lost.
use cca_go_indexer.Base.{leb, ◌∙◌, ◌≡◌, refl, sym, inl, arith, ◌∷◌, [], if◌then◌else◌}
use cca_go_indexer.AuctionCreated.{auction_created_handler}
use cca_go_indexer.Indexer.{run_rounds}
use cca_go_indexer.Indexer.Ahead.{IsAhead, AheadAfter, run_rounds-AheadAfter}
use cca_go_indexer.Indexer.Index.{index_blocks}
use cca_go_indexer.Indexer.Still.{IsStill}
use cca_go_indexer.Indexer.StillRounds.{IsCurrent}
use cca_go_indexer.Indexer.Trusted.{SmallHeads}
use cca_go_indexer.Registry.{HandlerMap, lookup_handler}
use cca_go_indexer.Store.Blocks.{block_hash}
use cca_go_indexer.Store.Inserts.{IsFree}
use cca_go_indexer.World.Calls.{Env, committed, lost}
use cca_go_indexer.World.Database.{empty_database}
use cca_go_indexer.Tests.Exact.{chain, logs_between, logs_between-logs_from, logs_of-HasTopic}
use cca_go_indexer.Tests.Progress.{first}
use cca_go_indexer.Tests.Setup.{test_codec, test_formats, healthy, config, start}

-- Every commit of the first twenty calls is carried out and reported as failed.
unfoldable lossy : Env
unfolding healthy
lossy = record healthy { commit_answer = λ t. if leb t 20 then lost else committed }

abbrev lossy_registry : HandlerMap
lossy_registry = (77, auction_created_handler test_formats lossy) ∷ []

lossy-IsStill : IsStill test_formats lossy config lossy_registry chain
unfolding lossy healthy lookup_handler
lossy-IsStill = record {
  found = refl;
  watched = logs_of-HasTopic;
  headers = λ t n h e. ground arith;
  logs = λ t from to count ls e answered.
      let same : logs_between from to ≡ ls = ground arith in
      sym same ∙ logs_between-logs_from from to count e;
}

lossy-SmallHeads : SmallHeads lossy
unfolding lossy healthy
lossy-SmallHeads = λ t n e. ground arith

no_blocks : IsFree 1 2 empty_database
no_blocks = λ k h. refl

none_stored :
    IsCurrent test_formats lossy config lossy_registry chain lossy-IsStill 1 empty_database
unfolding block_hash
none_stored = inl refl

empty-IsAhead :
    IsAhead test_formats lossy config lossy_registry chain lossy-IsStill lossy-SmallHeads
      (omega arith)
      1
      empty_database
      no_blocks
      none_stored
      1
      empty_database
unfolding index_blocks
empty-IsAhead = record { upto = 1; low = omega arith; ahead = omega arith; index = refl }

run_rounds-AheadAfter_example :
    AheadAfter test_formats lossy config lossy_registry chain lossy-IsStill lossy-SmallHeads
      (omega arith)
      1
      empty_database
      no_blocks
      none_stored
      (run_rounds lossy config lossy_registry 3 first start)
run_rounds-AheadAfter_example =
    run_rounds-AheadAfter test_formats lossy config lossy_registry chain lossy-IsStill
      lossy-SmallHeads (omega arith) 1 empty_database no_blocks none_stored 3 first start
      empty-IsAhead
