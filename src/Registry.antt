-- ===== src/Registry.antt =====
-- pipelines/utils/metric_registry.py: ids of metric metadata, looked up in the database behind a
-- process-wide cache with a time to live.
pub mod Database
pub mod Action
pub mod Cache
pub mod Ids
pub mod Batch
pub mod Units
pub mod Coherence
pub mod Sync
pub mod Refinement
pub mod Projects
pub mod Rows
pub mod Ttl
mod Tests
