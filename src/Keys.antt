-- ===== src/Keys.antt =====
-- apps/web/src/key-manager.ts: the keys that the user signs with.
pub mod Keyring
pub mod Stored
mod Tests
