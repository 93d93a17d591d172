-- ===== src/Lib.antt =====
-- The indexer of CCA auctions, from the RPC node to the tables of its database.
--
-- `ChainIndexer.Run` (internal/indexer/indexer.go) polls a node for the chain's head, checks whether the
-- chain has dropped the last indexed block (`detectReorg`), and then either rolls back (`handleReorg`,
-- internal/indexer/reorg.go) or indexes a batch: it asks for the logs of a range of blocks, fetches their
-- headers concurrently, and in one transaction hands the logs to the registry
-- (internal/indexer/handler.go), stores the headers and moves the cursor. The registry groups the logs by
-- their first topic and calls the handler of each; the one there is, `AuctionCreatedHandler`
-- (internal/indexer/handlers/auction_created.go), decodes a log and stores a raw event and an auction
-- through the repositories (internal/store/postgres). A second command serves the auctions and two probes
-- over HTTP (internal/api). Both commands (cmd/indexer, cmd/api) load their configuration from the
-- environment (internal/config) and open the store.
--
-- Base, Text, BigInt: lists, tables, state-passing computations with errors, byte strings, and `*big.Int`'s
--   printing and reading in base 10, shared by the rest.
-- Types: the domain's values (internal/domain/cca) and what the code calls of go-ethereum's text forms,
--   as a record `Codec` with the round trips that go-ethereum documents.
-- World: the tables (World/Database), the errors (World/Errors), single calls of the database and the node
--   (World/Calls), `pgStore.WithTx` (World/Tx). A computation maps a `World`, the database and the number
--   of calls made, to a result and a world. An `Env` fixes what the call made at each time answers:
--   failures, other heads, other headers for the same block, a commit that is carried out and reported as
--   failed, the order in which concurrent tasks end, and when the context is done.
-- Store: the repositories' statements and operations, a file each (internal/store/postgres/auction.go,
--   block.go, cursor.go, raw_event.go); a table is a list of rows with `ON CONFLICT` as written.
--   Store/Opening is `New` with the migrations (internal/store/postgres/postgres.go), over the answers of
--   pgx and golang-migrate.
-- Strconv, Config: `strconv`'s numbers of 64 bits in base 10, and the loaders of internal/config/config.go.
--   Config/Loaded says what a loaded value and an error tell of the environment.
-- Registry: `NewRegistry`, `TopicFilter` and `HandleLogs`; Registry/Groups has the plain description of the
--   groups.
-- Reorg: `detectReorg` and `handleReorg`. The search loop recurs on the 128 rounds that it has. Finds and Unshared
--   are about what it finds where every call succeeds.
-- Headers: the `errgroup` of a batch, its tasks in the order in which they end.
-- Indexer: `Run` as rounds: each iteration is a function from the loop's variables to those of the
--   next one, or to an error that is returned, or to a panic; `run` makes a given number of rounds,
--   which is its only fuel, and Runs has the rule for what each round keeps. Indexer/Index is the
--   abstract specification: the entries that a chain's blocks decode to, block by block, with no
--   regard to batches, calls or failures. Detection and BatchCommits have the two parts of a round;
--   Still, StillRounds, Exactly, CaughtUp and Fresh carry the index through a batch, a round and any
--   number of rounds; Present, Again and Overlap are about blocks that are stored twice, and Ahead
--   about rounds whose commits may be lost; Hashes, Cut, Forks and Reorged carry it through a
--   reorganisation. Switches and SwitchRounds are about the index of one of several chains
--   (`Chains`) in a round; Histories has the life of an indexer, its starts, rounds and stops, as a
--   data type; Recovery, Standing and Settles are about what it comes to when the node stays on one
--   chain.
-- AuctionCreated: `AuctionCreatedHandler.Handle`; the ABI decoders and `json.Marshal` are the record
--   `Formats`.
-- Transport: `retryTransport.RoundTrip` (internal/eth/transport.go), its loop on the attempts that are
--   configured, with the events that it leaves; Backoff is about the delays between them.
-- Api: `AuctionHandler.Get` (internal/api/handlers/auction.go), what it writes
--   (internal/api/httputil/response.go), and the chain cors, requestID, recovery, requestLogger of `NewServer`
--   (internal/api/middleware.go, internal/api/server.go); the probes (internal/api/handlers/health.go) and the
--   routes of both multiplexers (cmd/api/main.go), with the cleaning of paths in Api/Paths.
-- Commands: `run` of cmd/api/main.go as a step relation, its two goroutines, its channel and the signals in
--   any order, and its `main`; `main` of cmd/indexer/main.go, with its exits and deferred calls.
-- Logging: the settings of internal/log/level.go.
-- Whole: the API over the database that the indexer writes, in a run of rounds and in a history.
-- Tests: a small concrete world and the theorems in it.
--
-- Numbers: uint64 arithmetic on cursors is taken modulo 2 ^ 64 where the code adds or subtracts
-- (`u64`, `sub64`); `IsTrusted` (Indexer/Trusted) bounds heads and the batch size by 2 ^ 63, what a BIGINT
-- column holds. Hashes and addresses are numbers; a chain identifier is a natural
-- number, that of the 64 bits of its `int64`.
--
-- In a history the node is on one chain while a round lasts, and goes over to another between two rounds: `Run`
-- does not check that a batch's logs and headers, which it asks for one after the other, are of one chain.
--
-- Not modelled: what is logged (but for what requestLogger records), time stamps, the statements of the migrations,
-- and of the standard library's HTTP server percent escapes, queries, the method CONNECT, whose paths are not
-- cleaned, and time-outs.
-- `time.ParseDuration`, which computes with floating point, is a parameter, with what it answers on the two
-- defaults; so is the environment after `godotenv.Load`. Sleeping between polls is one step that either the
-- timer or the context ends; between attempts of a request it is an event with the delay before its jitter.
pub mod Base
pub mod Text
pub mod Types
pub mod World
pub mod Store
pub mod Strconv
pub mod Config
pub mod BigInt
pub mod Registry
pub mod Reorg
pub mod Headers
pub mod Indexer
pub mod AuctionCreated
pub mod Transport
pub mod Api
pub mod Commands
pub mod Logging
pub mod Whole
pub mod Tests
