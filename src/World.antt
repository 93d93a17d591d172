-- ===== src/World.antt =====
-- What the program calls and does not implement (the database server, the RPC node, the clock, the
-- cancellation of a context), and the effects through which it does: internal/store/postgres/
-- postgres.go and the interfaces of internal/eth/client.go and internal/store/store.go.
pub mod Database
pub mod Calls
pub mod Tx
pub mod Errors
pub mod Healthy
