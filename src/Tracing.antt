-- ===== src/Tracing.antt =====
-- internal/observability/tracing.go: the collector's address, and tracing that never fails a service.
mod Defs
pub mod Address
unfoldable pub use Defs.*
