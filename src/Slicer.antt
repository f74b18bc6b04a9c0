-- ===== src/Slicer.antt =====
-- pipelines/utils/smart_slicer.py: join paths between tables, found along foreign keys.
pub mod Graph
pub mod Search
pub mod Mapping
mod Tests
