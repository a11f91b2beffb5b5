-- ===== src/Workspace.antt =====
-- The workspace: its mode, the tenant of a request, and the data that the pages show.
pub mod Context
pub mod Rows
pub mod Answers
pub mod Snapshot
pub mod Transport
pub mod Service
pub mod Portal
pub mod Server
mod Tests
