-- ===== src/Engine.antt =====
-- internal/engine: workspaces in a PostgreSQL database, their life cycle and the SQL they run.
pub mod Types
pub mod Exec
pub mod Gateway
pub mod Cleanup
pub mod Lifecycle
pub mod Result
pub mod Execute
pub mod Registry
pub mod Initialize
pub mod Among
pub mod Bootstrap
pub mod Identifiers
pub mod Workspaces
pub mod Runtime
