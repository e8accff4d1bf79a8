-- ===== src/Tools.antt =====
-- server/src/tools: the boundary that every tool call passes.
pub mod Policy
mod Tests
