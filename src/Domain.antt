-- ===== src/Domain.antt =====
-- internal/domain: the values that the services exchange and store, the errors, the validation.
mod Values
mod Errors
mod Events
mod Message
mod Fraud
pub mod Validation
pub use Values.*
pub use Errors.*
unfoldable pub use Events.*
pub use Message.*
pub use Fraud.*
