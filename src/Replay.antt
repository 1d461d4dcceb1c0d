-- ===== src/Replay.antt =====
-- services/replay/main.go: a CSV file of transactions is sent to the ingest service, row by row.
mod Defs
mod Main
pub mod Rows
pub mod Sent
pub mod Endings
unfoldable pub use Defs.*
unfoldable pub use Main.*
