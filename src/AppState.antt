-- ===== src/AppState.antt =====
-- apps/web/src/app-state.tsx: the functions that the application's state is updated with.
pub mod Notes
pub mod Places
pub mod Relays
pub mod Participants
pub mod Stored
mod Tests
