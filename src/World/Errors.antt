-- ===== src/World/Errors.antt =====
-- The errors that the indexer's code makes and wraps (`fmt.Errorf("...: %w", err)`), by their
-- format strings.
use cca_go_indexer.Base.{ℕ}

-- What an error was wrapped with on its way up.
pub data Operation : Type 0 where
  begin_tx commit_tx loading_cursor get_block_number filter_logs handling_logs batch_handler :
      Operation
  handling_log insert_raw_event insert_auction upserting_cursor executing_batch handle_reorg :
      Operation
  delete_raw_events delete_auctions delete_blocks get_ancestor_hash update_cursor : Operation
  rollback_transaction fetching_headers unpack_event_data unpack_config_data : Operation
  marshal_topics marshal_decoded : Operation
  get_stored_hash get_chain_hash get_chain_header header_for_block inserting_block detect_reorg_at :
      ℕ → Operation

pub data Error : Type 0 where
  -- an answer of the database, of the RPC node, of a decoder or encoder
  database_error rpc_error codec_error : Error
  -- `ctx.Err()`
  canceled : Error
  -- `ErrNoTopics`, "expected 3 topics, got %d" and "reorg deeper than %d blocks"
  no_topics : Error
  few_topics : ℕ → Error
  reorg_too_deep : Error
  wrapped : Operation → Error → Error
