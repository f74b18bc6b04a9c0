-- ===== src/Metrics.antt =====
-- pipelines/utils/metrics.py: lead times, velocity, percentiles, and the start of work.
pub mod Times
pub mod Velocity
pub mod Percentiles
pub mod Monotone
pub mod WorkStart
pub mod Throughput
mod Tests
