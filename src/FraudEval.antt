-- ===== src/FraudEval.antt =====
-- internal/fraudeval/server.go: the synchronous gRPC service.
mod Defs
pub mod Decision
pub mod Interceptor
unfoldable pub use Defs.*
