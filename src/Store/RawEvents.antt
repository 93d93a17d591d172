-- ===== src/Store/RawEvents.antt =====
-- `rawEventRepo` (internal/store/postgres/raw_event.go) over the table `raw_events`, whose primary
-- key is the chain, the block number, the transaction and the log's index.
use cca_go_indexer.Base.{ℕ, Bool, ◌&&◌, ◌==◌, leb, insert_new, delete_where}
use cca_go_indexer.Text.{Text, text_eq}
use cca_go_indexer.Types.{RawEvent, Codec}
use cca_go_indexer.World.Calls.{Env, Action, exec}
use cca_go_indexer.World.Database.{Database, RawEventRow}

abbrev pub same_event : ℕ → ℕ → Text → ℕ → RawEventRow → Bool
same_event chain n tx index r =
    (r.chain_id == chain)
    && ((r.block_number == n) && (text_eq r.tx_hash tx && (r.log_index == index)))

-- `chain_id = $1 AND block_number >= $2`
abbrev pub from_block : ℕ → ℕ → RawEventRow → Bool
from_block chain n r = (r.chain_id == chain) && leb n r.block_number

unfoldable pub delete_raw_events : ℕ → ℕ → Database → Database
delete_raw_events chain n db = record db {
  raw_events = delete_where (from_block chain n) db.raw_events;
}

module _ ⦃c : Codec⦄ where
  abbrev pub raw_event_row : RawEvent → RawEventRow
  raw_event_row e = record {
    chain_id = e.chain_id;
    block_number = e.block_number;
    block_hash = c.hash_hex e.block_hash;
    tx_hash = c.hash_hex e.tx_hash;
    log_index = e.log_index;
    address = c.address_hex e.address;
    event_name = e.event_name;
    topics = e.topics_json;
    data_hex = e.data_hex;
    decoded = e.decoded_json;
  }

  unfoldable pub insert_raw_event : RawEvent → Database → Database
  insert_raw_event e db = record db {
    raw_events =
        insert_new (same_event e.chain_id e.block_number (c.hash_hex e.tx_hash) e.log_index)
          (raw_event_row e) db.raw_events;
  }

  -- `rawEventRepo.Insert` and `rawEventRepo.DeleteFromBlock`
  abbrev pub insert : Env → RawEvent → Action (Unit {0})
  insert env e = exec env (insert_raw_event e)

abbrev pub delete_from_block : Env → ℕ → ℕ → Action (Unit {0})
delete_from_block env chain n = exec env (delete_raw_events chain n)
