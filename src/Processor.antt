-- ===== src/Processor.antt =====
-- internal/processor/processor.go: what the processor does with one queue message.
mod Defs
pub mod Steps
pub mod Outcome
pub mod Success
pub mod Stored
pub mod Redelivery
pub mod Counters
pub mod Grounded
pub mod Alerts
pub mod Backed
unfoldable pub use Defs.*
