-- ===== src/Store.antt =====
-- The database of the program: its schema, sessions with failing statements, and the statements of
-- internal/db/queries.sql.go as functions on the tables.
pub mod Schema
pub mod Monad
pub mod Transactions
pub mod Members
pub mod Rules
pub mod Waivers
pub mod Syncs
pub mod OrcaSyncs
pub mod Budgets
pub mod LineCategories
pub mod Categories
pub mod AuditLogs
pub mod Effects
pub mod Reads
pub mod Leads
pub use Schema.*
unfoldable pub use Monad.*
unfoldable pub use Transactions.*
unfoldable pub use Members.*
unfoldable pub use Rules.*
unfoldable pub use Waivers.*
unfoldable pub use Syncs.*
unfoldable pub use OrcaSyncs.*
unfoldable pub use Budgets.*
unfoldable pub use LineCategories.*
unfoldable pub use Categories.*
unfoldable pub use AuditLogs.*
