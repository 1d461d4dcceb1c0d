-- ===== src/Metrics.antt =====
-- internal/adapters/prometheus/metrics.go: the metrics that are registered, and that every sample
-- of the services is one of them.
mod Defs
pub mod Pipeline
pub mod Servers
unfoldable pub use Defs.*
