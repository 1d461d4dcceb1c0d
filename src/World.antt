-- ===== src/World.antt =====
-- What the services share and what they do not implement: the tables that the SQL statements of
-- internal/db and internal/idempotency work on (their columns are those of migrations/), the
-- object store, the broker and the metrics as a state; and, as a parameter, the environment that
-- decides the readings of the clock, the new UUIDs, which calls fail, and the codecs.
mod Defs
mod Laws
unfoldable pub use Defs.*
pub use Laws.*
