-- ===== src/Store.antt =====
-- server/src/store: the store in memory.
pub mod Rows
pub mod Shells
pub mod State
pub mod Runs
pub mod Threads
pub mod Writes
pub mod Calls
pub mod Users
pub mod SpaceRows
pub mod Tenants
pub mod Spaces
pub mod Cancelling
pub mod Steps
pub mod Foreign
pub mod Slots
pub mod Tests
