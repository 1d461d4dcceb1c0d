-- ===== src/System.antt =====
-- The services together: any interleaving of requests, deliveries, redeliveries and time.
mod Defs
pub mod Frames
pub mod Sound
pub mod Accepted
pub mod Delivered
pub mod Ledger
pub mod Recorded
pub mod Served
pub mod Readable
pub mod Grounded
pub mod Holds
pub mod Drain
unfoldable pub use Defs.*
