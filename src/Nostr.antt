-- ===== src/Nostr.antt =====
-- apps/web/src/nostr.ts: events, queries and publishing over relays.
pub mod Platform
pub mod Tags
pub mod Events
pub mod Notes
pub mod Session
pub mod Queries
pub mod Signing
pub mod Publishing
mod Tests
