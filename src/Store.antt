-- ===== src/Store.antt =====
-- The PostgreSQL state that the repositories of reference/implementation/src/agent_pay read and
-- write (specs/v1/database-schema.sql and specs/v1/migrations).
mod Enums
mod Keys
mod Records
mod Sessions
mod Statements
pub mod Refused
pub mod Returns
pub mod Nested
mod Rules
unfoldable pub use Enums.*
unfoldable pub use Keys.*
pub use Records.*
unfoldable pub use Sessions.*
unfoldable pub use Statements.*
pub use Rules.*
