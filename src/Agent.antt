-- ===== src/Agent.antt =====
-- server/src/agent: the state of a run and the context that is sent to the model.
pub mod Goal
pub mod Execution
pub mod Compaction
pub mod Bus
mod Tests
