-- ===== src/Ingest.antt =====
-- services/ingest/main.go: the HTTP handler that takes an event and puts it into the queue.
mod Defs
pub mod Envelope
pub mod Delivery
pub mod Published
mod Routes
unfoldable pub use Defs.*
