-- ===== src/Types.antt =====
-- The values that the components exchange: internal/domain/cca, and of go-ethereum what the code
-- reads (hashes, addresses, headers, logs and their text forms).
use cca_go_indexer.Base.{ℕ, ◌≡◌, Bool, List}
use cca_go_indexer.BigInt.{ℤ}
use cca_go_indexer.Text.{Text, to_lower}

-- `common.Hash` and `common.Address` are arrays of 32 and 20 bytes, read as big-endian numbers.
abbrev pub Hash : Type 0
Hash = ℕ

abbrev pub Address : Type 0
Address = ℕ

-- `common.Hash{}`
abbrev pub zero_hash : Hash
zero_hash = 0

-- What the code calls of go-ethereum's package `common`, with what it documents of the text forms:
-- the decoders read back what the encoders write, an address in lower case too.
pub record Codec : Type 0 where
  pub hash_hex : Hash → Text
  pub hex_to_hash : Text → Hash
  pub address_hex : Address → Text
  pub hex_to_address : Text → Address
  pub is_hex_address : Text → Bool
  pub bytes_to_address : Hash → Address
  pub hex_to_hash_hex : (h : Hash) → hex_to_hash (hash_hex h) ≡ h
  pub hex_to_address_lower : (a : Address) → hex_to_address (to_lower (address_hex a)) ≡ a

-- `blockHeader`: of a `types.Header`, its `Hash()` and its `ParentHash`.
pub record BlockHeader : Type 0 where
  pub hash : Hash
  pub parent_hash : Hash

-- `types.Log`; `payload` is its field `Data`.
pub record Log : Type 0 where
  pub address : Address
  pub topics : List Hash
  pub payload : List ℕ
  pub block_number : ℕ
  pub tx_hash : Hash
  pub block_hash : Hash
  pub index : ℕ

-- `cca.Auction`, less its time stamps, which only the database sets.
pub record Auction : Type 0 where
  pub auction_address : Address
  pub token : Address
  pub amount : ℤ
  pub currency : Address
  pub tokens_recipient : Address
  pub funds_recipient : Address
  pub start_block : ℕ
  pub end_block : ℕ
  pub claim_block : ℕ
  pub tick_spacing : ℤ
  pub validation_hook : Address
  pub floor_price : ℤ
  pub required_currency_raised : ℤ
  pub auction_steps_data : List ℕ
  pub chain_id : ℕ
  pub block_number : ℕ
  pub tx_hash : Hash
  pub log_index : ℕ

-- `cca.RawEvent`, less its time stamps.
pub record RawEvent : Type 0 where
  pub chain_id : ℕ
  pub block_number : ℕ
  pub block_hash : Hash
  pub tx_hash : Hash
  pub log_index : ℕ
  pub address : Address
  pub event_name : Text
  pub topics_json : Text
  pub data_hex : Text
  pub decoded_json : Text
