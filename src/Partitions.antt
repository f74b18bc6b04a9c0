-- ===== src/Partitions.antt =====
-- pipelines/partitions.py: a Dagster partition for every project.
pub mod Keys
pub mod Sync
pub mod Credentials
pub mod Granted
mod Tests
