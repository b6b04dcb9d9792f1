-- ===== src/Policy.antt =====
-- internal/policy/policy.go: which SQL may run in a workspace.
pub mod Json
pub mod Sets
pub mod Routines
pub mod Check
pub mod Everywhere
pub mod Admitted
mod Calls
mod Guards
mod Kinds
mod Options
pub mod Sound
