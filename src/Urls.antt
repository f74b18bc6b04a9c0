-- ===== src/Urls.antt =====
-- app/services/url_safety.py: which instance URLs of an integration are accepted.
pub mod Validate
pub mod Accepted
mod Tests
