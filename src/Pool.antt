-- ===== src/Pool.antt =====
-- apps/web/src/relay-pool.ts: the pool of relay connections. A connection is an object that the map
-- and the listeners of its socket share: the model keeps the objects on a heap, and the map holds
-- their positions. So events of a socket that the pool has dropped still reach its object.
pub mod State
pub mod Closing
pub mod Connecting
pub mod Events
pub mod Messages
pub mod Invariant
pub mod Acquire
pub mod Eviction
pub mod Capacity
pub mod Dropping
pub mod Cleanup
pub mod Steps
mod Tests
