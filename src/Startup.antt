-- ===== src/Startup.antt =====
-- How the services start and end: NewClient, declareTopology and Close of
-- internal/adapters/rabbitmq/client.go, NewClient of internal/adapters/minio/client.go, NewClient
-- and Close of internal/db/db.go, NewEngine of internal/fraud/engine.go, the wiring of the scorer in
-- services/processor/main.go and services/fraud-grpc/main.go, and main of the five services.
mod Broker
pub mod Topology
mod Scoring
mod Services
pub mod Ready
pub mod Agreement
mod Shutdown
pub mod Released
unfoldable pub use Broker.*
unfoldable pub use Scoring.*
unfoldable pub use Services.*
unfoldable pub use Shutdown.*
