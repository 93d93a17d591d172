-- ===== src/Tests.antt =====
-- The theorems at concrete inputs, in a small world: one handler, a chain of twelve blocks and one
-- auction.
mod Setup
mod Effects
mod Rounds
mod Progress
mod Retries
mod Api
mod Exact
mod Indexed
mod Settings
mod Server
mod Commands
mod Launch
mod Reorged
mod Switched
mod Lossy
