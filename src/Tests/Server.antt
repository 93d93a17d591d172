-- ===== src/Tests/Server.antt =====
-- What the theorems on the server say for a probe and for a request of a stored auction.
use cca_go_indexer.Base.{◌≡◌, refl, some, none, [], ◌∷◌}
use cca_go_indexer.Base.Effect.{Ends}
use cca_go_indexer.AuctionCreated.{auction_of}
use cca_go_indexer.Api.{auction_body, to_auction_response}
use cca_go_indexer.Api.Answers.{fresh_session}
use cca_go_indexer.Api.Middleware.{Request}
use cca_go_indexer.Api.Paths.{parts, auction_path, clean_path, is_plain}
use cca_go_indexer.Api.Routes.{is_get, outer}
use cca_go_indexer.Api.Served.{IsServed, outer-IsServed, outer-insert_auction}
use cca_go_indexer.BigInt.{pos}
use cca_go_indexer.Store.Auctions.{insert_auction}
use cca_go_indexer.Text.{Text, codes, to_lower}
use cca_go_indexer.Types.{Auction}
use cca_go_indexer.World.Database.{empty_database}
use cca_go_indexer.Tests.Setup.{test_codec, test_formats, test_params, created, healthy, start}

abbrev stored : Auction
stored = auction_of test_formats 1 created 4 5 (pos 7) test_params

abbrev new_id : Text
new_id = codes "new"

abbrev pub lookup : Request
lookup = record {
  method = codes "GET";
  path = codes "/api/v1/auctions/0000";
  id_header = [];
  context_id = none;
}

outer-IsServed_example :
    Ends
      (λ _ s. IsServed healthy 1 new_id lookup start s)
      (λ _ _. ⊥)
      (outer healthy 1 new_id lookup (fresh_session start))
unfolding is_plain
outer-IsServed_example = outer-IsServed healthy 1 new_id lookup start refl refl

-- Slashes in a row, a dot and two dots are cleaned away, the slash at the end stays.
clean_path_example : clean_path (codes "/api//v1/./x/../auctions/") ≡ codes "/api/v1/auctions/"
unfolding clean_path
clean_path_example = refl

clean_path_root : clean_path (codes "/../") ≡ codes "/"
unfolding clean_path
clean_path_root = refl

-- A GET of a path that is not clean is redirected, and leaves no entry in the log.
abbrev unclean : Request
unclean = record lookup { path = codes "/api/v1//auctions/0000" }

outer-unclean :
    ((outer healthy 1 new_id unclean (fresh_session start)).1.writer.status ≡ some 301)
    × ((outer healthy 1 new_id unclean (fresh_session start)).1.writer.headers
        ≡ (codes "Location", codes "/api/v1/auctions/0000")
          ∷ (codes "Content-Type", codes "text/html; charset=utf-8")
          ∷ [])
    × ((outer healthy 1 new_id unclean (fresh_session start)).1.completed ≡ [])
unfolding outer is_get
outer-unclean = (refl, refl, refl)

outer-insert_auction_example :
    Ends
      (λ _ s.
        (s.writer.status ≡ some 200)
        × (s.writer.bodies ≡ auction_body (to_auction_response stored) ∷ [])
        × (s.completed ≡ (codes "GET", codes "/api/v1/auctions/0000", 200) ∷ []))
      (λ _ _. ⊥)
      (outer healthy 1 new_id lookup
        (fresh_session (record { db = insert_auction stored empty_database; now = 3 })))
unfolding is_get parts auction_path test_codec healthy to_lower
outer-insert_auction_example =
    outer-insert_auction healthy 1 new_id lookup stored empty_database 3 (codes "0000") refl refl
      refl refl refl refl refl refl refl
