-- ===== src/Commands.antt =====
-- The commands (cmd/api and cmd/indexer).
pub mod ApiRun
pub mod IndexerMain
pub mod IndexerEnds
pub mod ApiEnds
pub mod ApiProgress
pub mod ApiMain
