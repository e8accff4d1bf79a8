-- ===== src/Deletion.antt =====
-- server/src/deletion: how a permanent deletion excludes concurrent work on what it deletes.
pub mod Gate
mod Tests
