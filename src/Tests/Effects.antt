-- ===== src/Tests/Effects.antt =====
-- What the theorems on single components say in the small world.
use cca_go_indexer.Base.{ℕ, ◌+◌, ◌≡◌, refl, ◌<◌, none, some, List, [], ◌∷◌, All, length}
use cca_go_indexer.Base.Effect.{Ends}
use cca_go_indexer.AuctionCreated.{handle, auction_created_handler, auction_of}
use cca_go_indexer.AuctionCreated.Writes.{Outcome, handle-Outcome}
use cca_go_indexer.BigInt.{negsuc}
use cca_go_indexer.Headers.{fetch_headers}
use cca_go_indexer.Headers.Slots.{SlotFilled, fetch_headers-SlotFilled}
use cca_go_indexer.Registry.{lookup_handler, new_registry, handle_logs, dispatch}
use cca_go_indexer.Registry.Groups.{Tagged, groups_of}
use cca_go_indexer.Registry.Batches.{tag_all, handle_logs-groups_of}
use cca_go_indexer.Registry.Lookup.{new_registry-found}
use cca_go_indexer.Store.Auctions.{
  lower_hex, insert_auction, auction_by_address, auction_by_address-insert_auction,
}
use cca_go_indexer.Types.{Auction, Log}
use cca_go_indexer.World.Database.{empty_database}
use cca_go_indexer.Tests.Setup.{
  test_codec, test_formats, test_params, created, foreign, healthy, registry, start,
}

abbrev three : List Log
three = created ∷ foreign ∷ record created { block_number = 4 } ∷ []

abbrev tagged : List Tagged
tagged = (77, created) ∷ (78, foreign) ∷ (77, record created { block_number = 4 }) ∷ []

handle_logs-groups_of_example :
    handle_logs registry 1 three start ≡ dispatch registry 1 (groups_of tagged) start
unfolding tag_all
handle_logs-groups_of_example = (handle_logs-groups_of registry 1 three start).1 tagged refl

new_registry-found_example :
    All
      (λ h. lookup_handler h.event_id registry ≡ some h)
      (auction_created_handler test_formats healthy ∷ [])
unfolding new_registry auction_created_handler
new_registry-found_example =
    new_registry-found (auction_created_handler test_formats healthy ∷ []) registry refl

fetch_headers-SlotFilled_example :
    Ends
      (λ hs w.
        (w.db ≡ empty_database)
        × (length hs ≡ 3)
        × ((i : ℕ) → i < 3 → SlotFilled (healthy.header_at 0) 5 hs i))
      (λ _ w. (w.db ≡ empty_database) × ((i : ℕ) × (i < 3) × (healthy.header_at 0 (5 + i) ≡ none)))
      (fetch_headers healthy 5 3 start)
fetch_headers-SlotFilled_example = fetch_headers-SlotFilled healthy 5 3 start

handle-Outcome_example :
    Outcome test_formats healthy 1 created created.topics empty_database
      (handle test_formats healthy 1 created start)
handle-Outcome_example = handle-Outcome test_formats healthy 1 created start

abbrev auction : Auction
auction = auction_of test_formats 1 created 4 5 (negsuc 41) test_params

auction_by_address-insert_auction_example :
    auction_by_address 1 (lower_hex 4) (insert_auction auction empty_database)
    ≡ some (record auction { auction_steps_data = [] })
auction_by_address-insert_auction_example =
    auction_by_address-insert_auction auction empty_database refl
