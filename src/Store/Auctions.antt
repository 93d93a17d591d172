-- ===== src/Store/Auctions.antt =====
-- `auctionRepo` (internal/store/postgres/auction.go) over the table `event_ccaf_auction_created`,
-- whose primary key is the chain and the auction's address.
use cca_go_indexer.Base.{
  ℕ, ◌≡◌, ap, Bool, ◌&&◌, Option, none, some, [], ◌==◌, leb, find, insert_new, find-insert_new_self,
  delete_where, arith,
}
use cca_go_indexer.BigInt.{ℤ, pos, to_string, set_string, set_string-to_string}
use cca_go_indexer.Text.{Text, to_lower, text_eq, text_eq_self}
use cca_go_indexer.Types.{Address, Auction, Codec}
use cca_go_indexer.World.Calls.{Env, Action, exec, query}
use cca_go_indexer.World.Database.{Database, AuctionRow}

-- `chain_id = $1 AND auction_address = $2`, the primary key.
abbrev pub has_address : ℕ → Text → AuctionRow → Bool
has_address chain address r = (r.chain_id == chain) && text_eq r.auction_address address

-- `chain_id = $1 AND block_number >= $2`
abbrev pub from_block : ℕ → ℕ → AuctionRow → Bool
from_block chain n r = (r.chain_id == chain) && leb n r.block_number

unfoldable pub delete_auctions : ℕ → ℕ → Database → Database
delete_auctions chain n db = record db { auctions = delete_where (from_block chain n) db.auctions }

unfoldable pub parse_big_int : Text → ℤ
parse_big_int s = elim (set_string s) [ none ↦ pos 0 | some n ↦ n ]

module _ ⦃c : Codec⦄ where
  abbrev pub lower_hex : Address → Text
  lower_hex a = to_lower (c.address_hex a)

  abbrev pub auction_row : Auction → AuctionRow
  auction_row a = record {
    chain_id = a.chain_id;
    auction_address = lower_hex a.auction_address;
    token = lower_hex a.token;
    amount = to_string a.amount;
    currency = lower_hex a.currency;
    tokens_recipient = lower_hex a.tokens_recipient;
    funds_recipient = lower_hex a.funds_recipient;
    start_block = a.start_block;
    end_block = a.end_block;
    claim_block = a.claim_block;
    tick_spacing = to_string a.tick_spacing;
    validation_hook = lower_hex a.validation_hook;
    floor_price = to_string a.floor_price;
    required_currency_raised = to_string a.required_currency_raised;
    block_number = a.block_number;
    tx_hash = c.hash_hex a.tx_hash;
    log_index = a.log_index;
  }

  unfoldable pub insert_auction : Auction → Database → Database
  insert_auction a db = record db {
    auctions =
        insert_new (has_address a.chain_id (lower_hex a.auction_address)) (auction_row a)
          db.auctions;
  }

  -- The value that `GetByAddress` builds from what it scanned.
  abbrev pub to_auction : AuctionRow → Auction
  to_auction r = record {
    auction_address = c.hex_to_address r.auction_address;
    token = c.hex_to_address r.token;
    amount = parse_big_int r.amount;
    currency = c.hex_to_address r.currency;
    tokens_recipient = c.hex_to_address r.tokens_recipient;
    funds_recipient = c.hex_to_address r.funds_recipient;
    start_block = r.start_block;
    end_block = r.end_block;
    claim_block = r.claim_block;
    tick_spacing = parse_big_int r.tick_spacing;
    validation_hook = c.hex_to_address r.validation_hook;
    floor_price = parse_big_int r.floor_price;
    required_currency_raised = parse_big_int r.required_currency_raised;
    auction_steps_data = [];
    chain_id = r.chain_id;
    block_number = r.block_number;
    tx_hash = c.hex_to_hash r.tx_hash;
    log_index = r.log_index;
  }

  -- `Scan`, and `pgx.ErrNoRows`
  abbrev pub scan_auction : Option AuctionRow → Option Auction
  scan_auction none = none
  scan_auction (some r) = some (to_auction r)

  unfoldable pub auction_by_address : ℕ → Text → Database → Option Auction
  auction_by_address chain address db = scan_auction (find (has_address chain address) db.auctions)

  -- `auctionRepo.Insert` and `auctionRepo.GetByAddress`
  abbrev pub insert : Env → Auction → Action (Unit {0})
  insert env a = exec env (insert_auction a)

  abbrev pub get_by_address : Env → ℕ → Text → Action (Option Auction)
  get_by_address env chain address = query env (auction_by_address chain address)

  -- What `String` prints for an amount is read back as that amount.
  pub parse_big_int-to_string : (z : ℤ) → parse_big_int (to_string z) ≡ z
  unfolding parse_big_int
  parse_big_int-to_string z = rw (set_string-to_string z, parse_big_int)

  -- A row reads back as the auction that it was made of, less the steps, which have no column.
  to_auction-auction_row :
      (a : Auction) → to_auction (auction_row a) ≡ record a { auction_steps_data = [] }
  to_auction-auction_row a =
      simp (parse_big_int-to_string, c.hex_to_address_lower, c.hex_to_hash_hex)

  -- An auction whose address is new on its chain is found under its address in lower case, with
  -- every field but the steps.
  pub auction_by_address-insert_auction :
      (a : Auction) (db : Database)
      → find (has_address a.chain_id (lower_hex a.auction_address)) db.auctions ≡ none
      → auction_by_address a.chain_id (lower_hex a.auction_address) (insert_auction a db)
        ≡ some (record a { auction_steps_data = [] })
  unfolding auction_by_address insert_auction
  auction_by_address-insert_auction a db new =
      rw
        (find-insert_new_self (has_address a.chain_id (lower_hex a.auction_address)) (auction_row a)
          (ground (arith, text_eq_self (lower_hex a.auction_address))) db.auctions new)
        (ap some (to_auction-auction_row a))

abbrev pub delete_from_block : Env → ℕ → ℕ → Action (Unit {0})
delete_from_block env chain n = exec env (delete_auctions chain n)
