-- ===== src/World/Database.antt =====
-- The tables of internal/store/migrations/000001_init.up.sql that the code uses, less their time
-- stamps. Hashes, addresses and numerics are stored as the text that the code sends.
use cca_go_indexer.Base.{ℕ, List, []}
use cca_go_indexer.Text.{Text}

pub record CursorRow : Type 0 where
  pub chain_id : ℕ
  pub last_block : ℕ
  pub last_block_hash : Text

pub record RawEventRow : Type 0 where
  pub chain_id : ℕ
  pub block_number : ℕ
  pub block_hash : Text
  pub tx_hash : Text
  pub log_index : ℕ
  pub address : Text
  pub event_name : Text
  pub topics : Text
  pub data_hex : Text
  pub decoded : Text

pub record AuctionRow : Type 0 where
  pub chain_id : ℕ
  pub auction_address : Text
  pub token : Text
  pub amount : Text
  pub currency : Text
  pub tokens_recipient : Text
  pub funds_recipient : Text
  pub start_block : ℕ
  pub end_block : ℕ
  pub claim_block : ℕ
  pub tick_spacing : Text
  pub validation_hook : Text
  pub floor_price : Text
  pub required_currency_raised : Text
  pub block_number : ℕ
  pub tx_hash : Text
  pub log_index : ℕ

pub record BlockRow : Type 0 where
  pub chain_id : ℕ
  pub block_number : ℕ
  pub block_hash : Text
  pub parent_hash : Text

pub record Database : Type 0 where
  pub cursors : List CursorRow
  pub raw_events : List RawEventRow
  pub auctions : List AuctionRow
  pub blocks : List BlockRow

abbrev pub empty_database : Database
empty_database = record { cursors = []; raw_events = []; auctions = []; blocks = [] }
