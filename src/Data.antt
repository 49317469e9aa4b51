-- ===== src/Data.antt =====
-- apps/web/src/data.ts: the client's data model and what it derives from it.
pub mod Types
pub mod Timestamps
pub mod Calls
pub mod Notes
pub mod Threads
pub mod Merge
pub mod Pulse
pub mod Story
mod Tests
