-- ===== src/Store.antt =====
-- internal/store: the SQLite tables and the operations on them.
pub mod Table
pub mod Rows
pub mod Engine
pub mod Statements
pub mod RealTokens
pub mod GateTokens
pub mod Sticky
pub mod Usage
pub mod Cascade
pub mod WellFormed
pub mod Integrity
pub mod Requests
pub mod Sessions
pub mod Calm
pub mod Deletion
pub mod Batch
pub mod Secrets
pub mod Migrate
