-- ===== src/Spaces.antt =====
-- server/src/spaces: who may see, use and change a space.
pub mod Input
pub mod Rows
pub mod Merge
pub mod Access
mod Tests
