-- ===== src/AuctionCreated.antt =====
-- `AuctionCreatedHandler` (internal/indexer/handlers/auction_created.go): what it stores for a log.
pub mod Writes
pub mod Again
use cca_go_indexer.Base.{
  ℕ, ◌+◌, ◌/◌, ◌%◌, Bool, Option, none, some, List, [], ◌∷◌, ◌++◌, map, length, ltb, if◌then◌else◌,
}
use cca_go_indexer.Base.Effect.{pure, raise, ◌>>=◌, ◌>>◌}
use cca_go_indexer.BigInt.{ℤ, to_string}
use cca_go_indexer.Registry.{EventHandler}
use cca_go_indexer.Store.Auctions
use cca_go_indexer.Store.RawEvents
use cca_go_indexer.Text.{Text, codes}
use cca_go_indexer.Types.{Address, Hash, Auction, RawEvent, Log, Codec}
use cca_go_indexer.World.Calls.{Env, Action, wrap}
use cca_go_indexer.World.Errors.{
  Operation, few_topics, codec_error, unpack_event_data, unpack_config_data, marshal_topics,
  marshal_decoded, insert_raw_event as inserting_raw_event, insert_auction as inserting_auction,
}

-- The tuple that the configuration bytes hold, by `mustABITupleType`.
pub record AuctionParams : Type 0 where
  pub currency : Address
  pub tokens_recipient : Address
  pub funds_recipient : Address
  pub start_block : ℕ
  pub end_block : ℕ
  pub claim_block : ℕ
  pub tick_spacing : ℤ
  pub validation_hook : Address
  pub floor_price : ℤ
  pub required_currency_raised : ℤ
  pub auction_steps_data : List ℕ

-- A value of the map that is marshalled.
pub data JsonValue : Type 0 where
  str : Text → JsonValue
  num : ℕ → JsonValue

-- The decoders of go-ethereum's package `abi` at the two argument lists of the handler, and
-- `json.Marshal` at a slice of strings and at a map; no value for an error.
pub record Formats : Type 0 where
  pub event_id : Hash
  pub unpack_event : List ℕ → Option (ℤ × List ℕ)
  pub unpack_params : List ℕ → Option AuctionParams
  pub marshal_strings : List Text → Option Text
  pub marshal_map : List (Text × JsonValue) → Option Text

-- `hex.EncodeToString`
hex_digit : ℕ → ℕ
hex_digit n = if ltb n 10 then b'0' + n else b'W' + n

pub hex_encode : List ℕ → Text
unfolding hex_digit
hex_encode [] = []
hex_encode (b ∷ bs) = hex_digit (b / 16) ∷ hex_digit (b % 16) ∷ hex_encode bs

abbrev pub hex_text : List ℕ → Text
hex_text bs = codes "0x" ++ hex_encode bs

abbrev or_fail : {A : Type 0} → Option A → Operation → Action A
or_fail none o = wrap o (raise codec_error)
or_fail (some a) o = pure a

module _ ⦃c : Codec⦄ (f : Formats) where
  -- The map `decoded`.
  pub decoded_map : Address → Address → ℤ → AuctionParams → List (Text × JsonValue)
  unfolding hex_encode
  decoded_map auction token amount p =
      (codes "auctionAddress", str (c.address_hex auction))
      ∷ (codes "token", str (c.address_hex token))
      ∷ (codes "amount", str (to_string amount))
      ∷ (codes "currency", str (c.address_hex p.currency))
      ∷ (codes "tokensRecipient", str (c.address_hex p.tokens_recipient))
      ∷ (codes "fundsRecipient", str (c.address_hex p.funds_recipient))
      ∷ (codes "startBlock", num p.start_block)
      ∷ (codes "endBlock", num p.end_block)
      ∷ (codes "claimBlock", num p.claim_block)
      ∷ (codes "tickSpacing", str (to_string p.tick_spacing))
      ∷ (codes "validationHook", str (c.address_hex p.validation_hook))
      ∷ (codes "floorPrice", str (to_string p.floor_price))
      ∷ (codes "requiredCurrencyRaised", str (to_string p.required_currency_raised))
      ∷ (codes "auctionStepsData", str (hex_text p.auction_steps_data))
      ∷ []

  -- The composite literals of `Handle`.
  abbrev pub raw_event_of : ℕ → Log → Text → Text → RawEvent
  raw_event_of chain log topics decoded = record {
    chain_id = chain;
    block_number = log.block_number;
    block_hash = log.block_hash;
    tx_hash = log.tx_hash;
    log_index = log.index;
    address = log.address;
    event_name = codes "AuctionCreated";
    topics_json = topics;
    data_hex = hex_text log.payload;
    decoded_json = decoded;
  }

  abbrev pub auction_of : ℕ → Log → Address → Address → ℤ → AuctionParams → Auction
  auction_of chain log auction token amount p = record {
    auction_address = auction;
    token = token;
    amount = amount;
    currency = p.currency;
    tokens_recipient = p.tokens_recipient;
    funds_recipient = p.funds_recipient;
    start_block = p.start_block;
    end_block = p.end_block;
    claim_block = p.claim_block;
    tick_spacing = p.tick_spacing;
    validation_hook = p.validation_hook;
    floor_price = p.floor_price;
    required_currency_raised = p.required_currency_raised;
    auction_steps_data = p.auction_steps_data;
    chain_id = chain;
    block_number = log.block_number;
    tx_hash = log.tx_hash;
    log_index = log.index;
  }

  module _ (env : Env) where
    -- `Handle`, once the auction's and the token's topic are at hand.
    pub store_auction : ℕ → Log → Address → Address → Action (Unit {0})
    unfolding hex_encode decoded_map
    store_auction chain log auction token = do
      (amount, config) ← or_fail (f.unpack_event log.payload) unpack_event_data
      params ← or_fail (f.unpack_params config) unpack_config_data
      topics ← or_fail (f.marshal_strings (map c.hash_hex log.topics)) marshal_topics
      decoded ← or_fail (f.marshal_map (decoded_map auction token amount params)) marshal_decoded
      wrap inserting_raw_event (RawEvents.insert env (raw_event_of chain log topics decoded))
      wrap inserting_auction
          (Auctions.insert env (auction_of chain log auction token amount params))

    -- The guard on the number of topics, and the reads of `log.Topics[1]` and `log.Topics[2]`.
    pub handle_topics : ℕ → Log → List Hash → Action (Unit {0})
    unfolding store_auction
    handle_topics chain log (t0 ∷ t1 ∷ t2 ∷ ts) =
        store_auction chain log (c.bytes_to_address t1) (c.bytes_to_address t2)
    handle_topics chain log ts = raise (few_topics (length ts))

    -- `AuctionCreatedHandler.Handle`
    unfoldable pub handle : ℕ → Log → Action (Unit {0})
    unfolding handle_topics
    handle chain log = handle_topics chain log log.topics

    -- The handler that `main` registers; it is no `BatchEventHandler`.
    unfoldable pub auction_created_handler : EventHandler
    unfolding handle
    auction_created_handler = record {
      event_name = codes "AuctionCreated";
      event_id = f.event_id;
      handle = handle;
      handle_batch = none;
    }
