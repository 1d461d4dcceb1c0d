-- ===== src/Consumer.antt =====
-- services/processor/main.go and services/alert-consumer/main.go: the loops over the deliveries.
mod Defs
pub mod Settle
pub mod Feed
pub mod Alerts
unfoldable pub use Defs.*
