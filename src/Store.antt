-- ===== src/Store.antt =====
-- The repositories of internal/store/postgres: each statement as a function on the database, the
-- method that sends it, and the laws of the statements.
pub mod Blocks
pub mod Cursors
pub mod RawEvents
pub mod Auctions
pub mod Rows
pub mod Inserts
pub mod Opening
