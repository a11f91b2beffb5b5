-- ===== src/Mutations.antt =====
-- What the page changes on the server, and how it refreshes afterwards.
pub mod Coordinator
pub mod Page
mod Tests
