-- ===== src/Topic.antt =====
-- The generator of the C++ topic types, scripts/srimb/generate_topic.py.
pub mod Parse
pub mod Render
pub mod Generate
pub mod Examples
