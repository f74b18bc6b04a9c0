-- ===== src/Jira.antt =====
-- pipelines/utils/__init__.py, which reads what Jira sends, and the functions of
-- pipelines/utils/transformations.py that call it.
pub mod Datetime
pub mod Issue
pub mod Shape
pub mod Sprint
pub mod Changelog
pub mod Offsets
pub mod Transitions
mod Tests
