-- ===== src/Schedules.antt =====
-- pipelines/jobs/schedules.py: the guarded sensors that request runs of the metrics jobs.
pub mod Clock
pub mod Runs
pub mod Sensors
pub mod Active
pub mod Requests
pub mod Once
pub mod Overlap
pub mod Jobs
pub mod Selected
mod Tests
