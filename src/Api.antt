-- ===== src/Api.antt =====
-- The HTTP API (internal/api): what a handler writes, the handler of an auction, and the middleware.
-- A handler passes on a response writer; it ends, or it panics.
pub mod Answers
pub mod Middleware
pub mod Health
pub mod Paths
pub mod Routes
pub mod Served
use cca_go_indexer.Base.{
  ℕ, ◌≡◌, Bool, true, false, Option, none, some, List, [], ◌∷◌, ◌++◌, find, upsert, if◌then◌else◌,
}
use cca_go_indexer.Base.Effect.{Result, ok, err, M, pure, ◌>>◌, ◌>>=◌}
use cca_go_indexer.BigInt.{to_string}
use cca_go_indexer.Store.Auctions
use cca_go_indexer.Text.{Text, codes, text_eq, to_lower}
use cca_go_indexer.Types.{Auction, Codec}
use cca_go_indexer.World.Calls.{Env, World}
use cca_go_indexer.World.Errors.{Error}

-- `AuctionResponse`
pub record AuctionResponse : Type 0 where
  pub auction_address : Text
  pub token : Text
  pub amount : Text
  pub currency : Text
  pub tokens_recipient : Text
  pub funds_recipient : Text
  pub start_block : ℕ
  pub end_block : ℕ
  pub claim_block : ℕ
  pub tick_spacing : Text
  pub validation_hook : Text
  pub floor_price : Text
  pub required_currency_raised : Text
  pub block_number : ℕ
  pub tx_hash : Text
  pub log_index : ℕ

-- What is encoded as a body: `Response`, `ErrorBody`, or the bytes of a probe.
pub data Body : Type 0 where
  auction_body : AuctionResponse → Body
  error_body : Text → Text → Body
  bytes_body : Text → Body

-- `http.ResponseWriter`: the headers, the status that was sent first, and what was written; and the
-- field `status` of a `statusWriter` around it.
pub record Writer : Type 0 where
  pub headers : List (Text × Text)
  pub status : Option ℕ
  pub bodies : List Body
  pub captured : ℕ

-- A handler's state: the writer, the world that the store's calls pass on, and the completed requests
-- that were logged, with method, path and status.
pub record Session : Type 0 where
  pub writer : Writer
  pub world : World
  pub completed : List (Text × Text × ℕ)

pub data Panic : Type 0 where
  panicked : Panic

abbrev pub Handler : Type 0 → Type 0
Handler A = M Session Panic A

abbrev pub on_writer : (Writer → Writer) → Handler (Unit {0})
on_writer f s = (ok tt, record s { writer = f s.writer })

-- `w.Header().Set(name, value)`
abbrev pub set_header : Text → Text → Handler (Unit {0})
set_header name value =
    on_writer (λ w. record w { headers = upsert (λ e. text_eq e.0 name) (name, value) w.headers })

-- `w.WriteHeader(code)`: only the first one counts.
abbrev pub first_status : Option ℕ → ℕ → Option ℕ
first_status none code = some code
first_status (some sent) code = some sent

abbrev pub write_header : ℕ → Handler (Unit {0})
write_header code =
    on_writer (λ w. record w { status = first_status w.status code; captured = code })

-- `w.Write`, which sends the status 200 if none was sent.
abbrev pub write : Body → Handler (Unit {0})
write b =
    on_writer (λ w. record w { status = first_status w.status 200; bodies = w.bodies ++ b ∷ [] })

-- `WriteJSON`, `WriteError` and `WriteNotFound`
abbrev pub write_json : ℕ → Body → Handler (Unit {0})
write_json status b = do
  set_header (codes "Content-Type") (codes "application/json")
  write_header status
  write b

abbrev pub write_error : ℕ → Text → Text → Handler (Unit {0})
write_error status code message = write_json status (error_body code message)

abbrev pub write_not_found : Text → Handler (Unit {0})
write_not_found resource = write_error 404 (codes "not_found") (resource ++ codes " not found")

-- A call of the store, whose error the handler has at hand.
abbrev pub stored_outcome :
    {A : Type 0} → Session → Result Error A × World → Result Panic (Result Error A) × Session
stored_outcome s (r, w) = (ok r, record s { world = w })

abbrev pub stored : {A : Type 0} → M World Error A → Handler (Result Error A)
stored m s = stored_outcome s (m s.world)

module _ ⦃c : Codec⦄ where
  -- `toAuctionResponse`
  abbrev pub to_auction_response : Auction → AuctionResponse
  to_auction_response a = record {
    auction_address = to_lower (c.address_hex a.auction_address);
    token = to_lower (c.address_hex a.token);
    amount = to_string a.amount;
    currency = to_lower (c.address_hex a.currency);
    tokens_recipient = to_lower (c.address_hex a.tokens_recipient);
    funds_recipient = to_lower (c.address_hex a.funds_recipient);
    start_block = a.start_block;
    end_block = a.end_block;
    claim_block = a.claim_block;
    tick_spacing = to_string a.tick_spacing;
    validation_hook = to_lower (c.address_hex a.validation_hook);
    floor_price = to_string a.floor_price;
    required_currency_raised = to_string a.required_currency_raised;
    block_number = a.block_number;
    tx_hash = to_lower (c.hash_hex a.tx_hash);
    log_index = a.log_index;
  }

  -- `AuctionHandler.Get`, after the call of the store.
  abbrev pub answer_auction : Result Error (Option Auction) → Handler (Unit {0})
  answer_auction (err e) = write_error 500 (codes "internal_error") (codes "internal error")
  answer_auction (ok none) = write_not_found (codes "auction")
  answer_auction (ok (some a)) = do
    set_header (codes "Cache-Control") (codes "public, max-age=86400, immutable")
    write_json 200 (auction_body (to_auction_response a))

  -- `AuctionHandler.Get`
  unfoldable pub get_auction : Env → ℕ → Text → Handler (Unit {0})
  get_auction env chain address =
      if c.is_hex_address address
      then (stored (Auctions.get_by_address env chain (to_lower address)) >>= answer_auction)
      else write_error 400 (codes "bad_request") (codes "invalid address")
