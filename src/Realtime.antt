-- ===== src/Realtime.antt =====
-- The realtime channel between the server and the browser.
pub mod Protocol
pub mod Stream
pub mod Feed
mod Tests
