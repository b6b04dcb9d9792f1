-- ===== src/Web.antt =====
-- examples/web: the HTTP server over the package, with its sessions, handlers and error reports.
pub mod Report
pub mod Boundary
pub mod Schema
pub mod Sessions
pub mod Removal
pub mod Seed
pub mod Handlers
pub mod Serve
pub mod Stages
pub mod Schedule
pub mod Shutdown
