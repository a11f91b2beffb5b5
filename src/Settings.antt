-- ===== src/Settings.antt =====
-- The settings of a deployment and of a person.
pub mod Supabase
pub mod Theme
pub mod Auth
mod Tests
