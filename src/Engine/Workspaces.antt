-- ===== src/Engine/Workspaces.antt =====
-- internal/engine as a keeper of workspaces, told apart from how it keeps them.
pub mod Spec
pub mod View
pub mod Changes
pub mod Refines
pub mod Lasting
pub mod Stale
