-- ===== src/Query.antt =====
-- services/query/main.go: reading one event, and the stream of fraud events.
mod Defs
pub mod Reads
pub mod Stream
mod Routes
unfoldable pub use Defs.*
