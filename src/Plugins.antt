-- ===== src/Plugins.antt =====
-- server/src/plugins: the plugins of a space.
pub mod Graph
mod Tests
