-- ===== src/Transform.antt =====
-- pipelines/utils/transformations.py: from raw issues to clean ones.
pub mod Deduplicate
pub mod Newest
pub mod Distinct
pub mod Validate
mod Tests
