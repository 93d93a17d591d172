-- ===== src/Tests/Api.antt =====
-- What the theorems on the API say for a stored auction and for an application that panics.
use cca_go_indexer.Base.{◌≡◌, refl, some, none}
use cca_go_indexer.Base.Effect.{err, Ends}
use cca_go_indexer.AuctionCreated.{auction_of}
use cca_go_indexer.Api.{Session, get_auction, panicked}
use cca_go_indexer.Api.Answers.{fresh_session, IsAnswer, get_auction-IsAnswer}
use cca_go_indexer.Api.Middleware.{
  Request, Server, Recovered, logged, entered, middleware, middleware-Ends,
}
use cca_go_indexer.BigInt.{negsuc}
use cca_go_indexer.Text.{codes}
use cca_go_indexer.Types.{Auction}
use cca_go_indexer.World.Database.{empty_database}
use cca_go_indexer.Tests.Setup.{test_codec, test_formats, test_params, created, healthy, start}

abbrev auction : Auction
auction = auction_of test_formats 1 created 4 5 (negsuc 41) test_params

get_auction-IsAnswer_example :
    Ends
      (λ _ s. (s.world.db ≡ empty_database) × IsAnswer healthy 1 (codes "0000") start s.writer)
      (λ _ _. ⊥)
      (get_auction healthy 1 (codes "0000") (fresh_session start))
get_auction-IsAnswer_example = get_auction-IsAnswer healthy 1 (codes "0000") start

abbrev session : Session
session = fresh_session start

abbrev panics : Server
panics r s = (err panicked, s)

abbrev get : Request
get = record { method = codes "GET"; path = codes "/"; id_header = codes "r1"; context_id = none }

middleware-Ends_example :
    Ends
      (λ _ s.
        Ends
          (λ _ s0. s ≡ logged get s0)
          (λ _ s0. Recovered s0 s)
          (panics
            (record get { context_id = some (codes "r1") })
            (entered (codes "new") get session)))
      (λ _ _. ⊥)
      (middleware (codes "new") panics get session)
middleware-Ends_example = middleware-Ends (codes "new") panics get session refl
