-- ===== src/Tests/Launch.antt =====
-- What the theorems on the start of a command say where every service answers and a signal has come.
use cca_go_indexer.Base.{◌≡◌, refl, true, false, none}
use cca_go_indexer.Base.Effect.{ok, Ends}
use cca_go_indexer.Commands.IndexerEnds.{IsGraceful, main-IsGraceful}
use cca_go_indexer.Commands.IndexerMain.{closed, main}
use cca_go_indexer.Commands.ApiMain.{EndOf, loaded_of, api_main, api_main-EndOf}
use cca_go_indexer.Commands.ApiRun.{
  System, listening, returned, Reach, start, later, signal, stop, shut_down,
}
use cca_go_indexer.Config.{
  Config, load_api, load_indexer, load_base, validate_base, validate_indexer, parse_chain_id,
  parse_int_env, parse_uint64_env, parse_duration_env,
}
use cca_go_indexer.Indexer.{run, run_rounds, round, check_done}
use cca_go_indexer.Registry.{new_registry}
use cca_go_indexer.Store.Cursors.{stored_cursor}
use cca_go_indexer.Strconv.{parse_int}
use cca_go_indexer.Store.Opening.{
  Services, up_done, all_closed, new, run_migrations, IsOpened, new-IsOpened,
}
use cca_go_indexer.World.Calls.{Env, query}
use cca_go_indexer.Tests.Settings.{environment, seconds}
use cca_go_indexer.Tests.Setup.{test_codec, test_formats, healthy, start as begin}

abbrev services : Services
services = record { parses = true; creates = true; pings = true; migration = up_done }

new-IsOpened_example :
    Ends (λ _ r. IsOpened services r) (λ _ r. r ≡ all_closed) (new services all_closed)
new-IsOpened_example = new-IsOpened services

abbrev signaled : Env
signaled = record healthy { done_at = λ t. true }

main-IsGraceful_example :
    (cfg : Config) × (load_indexer environment seconds ≡ ok cfg)
    × IsGraceful test_formats signaled cfg services true 1 begin closed
unfolding main load_indexer load_base validate_base validate_indexer parse_chain_id parse_int_env
    parse_uint64_env parse_duration_env new run_migrations new_registry run run_rounds round
    check_done query stored_cursor healthy parse_int
main-IsGraceful_example =
    main-IsGraceful test_formats signaled environment seconds services true 1 begin closed refl

-- A signal comes, and the API's server is shut down.
abbrev after_signal : System
after_signal = record {
  serving = listening;
  err_ch = none;
  done = true;
  waiting = returned none;
  store_open = false;
}

reach_signal : Reach 2 after_signal
reach_signal = later (later (signal start) (stop refl refl)) (shut_down refl)

api_main-EndOf_example :
    EndOf services after_signal (loaded_of (load_api environment seconds)) 0 false
unfolding api_main load_api load_base validate_base parse_chain_id parse_int_env parse_uint64_env
    parse_duration_env new run_migrations parse_int
api_main-EndOf_example = api_main-EndOf services reach_signal environment seconds 0 false refl
